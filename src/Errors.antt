-- ===== src/Errors.antt =====
-- The errors of the driver. Causes carry what code branches on: the classes of `beegfs-ctl` errors,
-- and whether a path does not exist. Wrapping (`errors.WithStack`, `Wrap`, `WithMessage`) keeps the
-- class, and only adds text to the message, so it is the identity here.
use beegfs_csi_driver.Prelude.{String, Bool, true, false}

pub data Cause : Type 0 where
  -- ctlNotExistError, ctlExistError and ctlConnAuthError (pkg/beegfs/beegfs_ctl.go)
  ctl_not_exist ctl_exist ctl_conn_auth : String → String → Cause
  -- an error of the file system for which os.IsNotExist holds
  os_not_exist : Cause
  -- any other error, with its message
  failure : String → Cause
  -- a run-time panic: the process ends, so no code sees this value
  panic : String → Cause
  -- a loop of the code that does not end, so no code sees this value either
  diverges : Cause

-- errors.As(err, &ctlNotExistError{})
unfoldable pub is_ctl_not_exist : Cause → Bool
is_ctl_not_exist (ctl_not_exist out err) = true
is_ctl_not_exist _ = false

-- errors.As(err, &ctlExistError{})
unfoldable pub is_ctl_exist : Cause → Bool
is_ctl_exist (ctl_exist out err) = true
is_ctl_exist _ = false

-- errors.As(err, &ctlConnAuthError{})
unfoldable pub is_ctl_conn_auth : Cause → Bool
is_ctl_conn_auth (ctl_conn_auth out err) = true
is_ctl_conn_auth _ = false

-- os.IsNotExist(err)
unfoldable pub is_not_exist : Cause → Bool
is_not_exist os_not_exist = true
is_not_exist _ = false

-- The codes of google.golang.org/grpc/codes that the services return.
pub data Code : Type 0 where
  invalid_argument not_found aborted internal unimplemented unavailable : Code

-- The error of a gRPC handler: a status, made by `status.Error` or `newGrpcErrorFromCause`, or a
-- panic of the handler.
pub data GrpcError : Type 0 where
  status : Code → Cause → GrpcError
  crash : String → GrpcError

-- newGrpcErrorFromCause
unfoldable pub grpc_error : Code → Cause → GrpcError
grpc_error code (panic message) = crash message
grpc_error code diverges = crash "the handler does not return"
grpc_error code cause = status code cause
