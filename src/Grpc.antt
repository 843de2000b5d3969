-- ===== src/Grpc.antt =====
-- The gRPC server (pkg/beegfs/server.go): its endpoint, the start of its loop and the identifiers of
-- requests. The server itself (google.golang.org/grpc), the network and logging are not the
-- repository's code: the calls to the first two are recorded and answered by the environment.
pub mod Endpoint
pub mod RequestIds
use beegfs_csi_driver.Prelude.{
  ℕ, ◌+◌, ◌-◌, ◌/◌, ◌%◌, ◌^◌, String, ◌<>◌, Bool, true, false, ◌||◌, Option, none, some, List, [],
  ◌∷◌, ◌==◌, ltb, if◌then◌else◌,
}
use beegfs_csi_driver.Prelude.Result.{
  Result, ok, err, Exec, pure, fail, lift, continue, ◌>>=◌, ◌>>◌,
}
use beegfs_csi_driver.Text.Strings.{has_prefix_lower, split_n2}
use beegfs_csi_driver.Errors.{Cause, failure, is_not_exist, os_not_exist}

abbrev pub invalid_endpoint : Result Cause (String × String)
invalid_endpoint = err (failure "invalid endpoint")

-- s[0] and s[1], of which the second has to be there and not empty
abbrev pub endpoint_parts : String × Option String → Result Cause (String × String)
endpoint_parts (proto, none) = err (Cause.panic "index out of range [1] with length 1")
endpoint_parts (proto, some address) =
    if address == "" then invalid_endpoint else ok (proto, address)

-- parseEndpoint
unfoldable pub parse_endpoint : String → Result Cause (String × String)
unfolding has_prefix_lower split_n2
parse_endpoint ep =
    if has_prefix_lower ep "unix://" || has_prefix_lower ep "tcp://"
    then endpoint_parts (split_n2 ep "://")
    else invalid_endpoint

pub data Service : Type 0 where
  identity controller node : Service

pub data Call : Type 0 where
  -- os.Remove, net.Listen, csi.Register...Server, server.Serve
  remove : String → Call
  listen : String → String → Call
  register : Service → Call
  accept : Call

-- The calls so far, the last one first.
abbrev pub History : Type 0
History = List Call

-- How a call ended. A loop that ends because the server was stopped is no error.
pub record Network : Type 0 where
  pub reply : History → Call → Result Cause (Unit {0})

-- `LogFatal` ends the process with the exit code 255, so an error here is the end of the process.
abbrev pub Action : Type 0
Action = Exec History Cause (Unit {0})

-- Only an error other than that the file is not there is fatal.
unfoldable pub ignore_absent : Result Cause (Unit {0}) → Result Cause (Unit {0})
unfolding is_not_exist
ignore_absent (ok a) = ok tt
ignore_absent (err e) = if is_not_exist e then ok tt else err e

module _ (n : Network) where
  unfoldable pub call : Call → Action
  call c s = (n.reply s c, c ∷ s)

  -- A socket that an earlier run left is removed.
  unfoldable pub remove_stale : String → Action
  unfolding ignore_absent
  remove_stale address s = (ignore_absent (n.reply s (remove address)), remove address ∷ s)

  -- Registering a service does not fail.
  unfoldable pub register_all : List Service → Action
  register_all [] s = (ok tt, s)
  register_all (x ∷ xs) s = register_all xs (register x ∷ s)

  -- nonBlockingGRPCServer.serve, with those of the services that are not nil
  unfoldable pub serve : List Service → String → Action
  unfolding parse_endpoint remove_stale call register_all
  serve services endpoint = do
    (proto, given) ← lift (parse_endpoint endpoint)
    let address = if proto == "unix" then "/" <> given else given
    if proto == "unix" then remove_stale address else pure tt
    call (listen proto address)
    register_all services
    call accept

-- A hexadecimal digit, as the code of its character.
abbrev pub hex_code : ℕ → ℕ
hex_code d = if ltb d 10 then b'0' + d else b'a' + (d - 10)

-- fmt.Sprintf("%04x", n) for a number below 0x10000, as the codes of the text
abbrev pub hex4 : ℕ → List ℕ
hex4 n =
    hex_code (n / 0x1000)
    ∷ hex_code (n / 0x100 % 0x10)
    ∷ hex_code (n / 0x10 % 0x10)
    ∷ hex_code (n % 0x10)
    ∷ []

-- atomic.AddUint32(&requestIDCounter, 1)
unfoldable pub next_request : ℕ → ℕ
next_request counter = (counter + 1) % 2 ^ 32

-- The identifier that generateRequestContext makes of the new value of the counter.
unfoldable pub request_id : ℕ → List ℕ
request_id counter = hex4 (counter % 0x10000)
