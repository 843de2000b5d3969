-- ===== src/Operator/Status.antt =====
-- The conditions in the status of the custom resource (Reconcile in
-- operator/controllers/beegfsdriver_controller.go).
use beegfs_csi_driver.Prelude.{String, ◌<>◌, true, false, Option, none, some, ltb, if◌then◌else◌}
use beegfs_csi_driver.Text.Numbers.{decimal}
use beegfs_csi_driver.Operator.Objects.{Condition, StatefulSet, DaemonSet}

abbrev pub condition_controller_service_ready : String
condition_controller_service_ready = "ControllerServiceReady"

abbrev pub condition_node_service_ready : String
condition_node_service_ready = "NodeServiceReady"

abbrev pub reason_service_not_created : String
reason_service_not_created = "ServiceNotCreated"

abbrev pub reason_pods_not_scheduled : String
reason_pods_not_scheduled = "PodsNotScheduled"

abbrev pub reason_pods_not_ready : String
reason_pods_not_ready = "PodsNotReady"

abbrev pub reason_pods_ready : String
reason_pods_ready = "PodsReady"

-- What the status says of the controller service, from the Stateful Set on the cluster.
unfoldable pub controller_condition : Option StatefulSet → Condition
controller_condition none = record {
  type = condition_controller_service_ready;
  status = false;
  reason = reason_service_not_created;
  message = "controller service stateful set has not been created";
}
controller_condition (some sts) =
    if ltb sts.replicas 1
    then record {
      type = condition_controller_service_ready;
      status = false;
      reason = reason_pods_not_scheduled;
      message = "0/1 controller service pods have been scheduled";
    }
    else if ltb sts.ready_replicas 1
    then record {
      type = condition_controller_service_ready;
      status = false;
      reason = reason_pods_not_ready;
      message = "0/1 controller service pods are ready";
    }
    else record {
      type = condition_controller_service_ready;
      status = true;
      reason = reason_pods_ready;
      message = "1/1 controller service pods are ready";
    }

-- fmt.Sprintf("%d/%d node service pods are ready", ...)
unfoldable pub ready_message : DaemonSet → String
unfolding decimal
ready_message ds =
    decimal ds.number_ready
    <> ("/" <> (decimal ds.desired_number_scheduled <> " node service pods are ready"))

-- What the status says of the node service, from the Daemon Set on the cluster.
unfoldable pub node_condition : Option DaemonSet → Condition
unfolding ready_message
node_condition none = record {
  type = condition_node_service_ready;
  status = false;
  reason = reason_service_not_created;
  message = "node service daemon set has not been created";
}
node_condition (some ds) =
    if ltb ds.desired_number_scheduled 1
    then record {
      type = condition_node_service_ready;
      status = false;
      reason = reason_pods_not_scheduled;
      message = "0 node service pods have been scheduled";
    }
    else if ltb ds.number_ready ds.desired_number_scheduled
    then record {
      type = condition_node_service_ready;
      status = false;
      reason = reason_pods_not_ready;
      message = ready_message ds;
    }
    else record {
      type = condition_node_service_ready;
      status = true;
      reason = reason_pods_ready;
      message = ready_message ds;
    }
