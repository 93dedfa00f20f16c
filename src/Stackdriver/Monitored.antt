-- ===== src/Stackdriver/Monitored.antt =====
-- lib.rs: the monitored resource of the log entries.
use opentelemetry_rust_contr.Common.{List, [], ◌∷◌, Option, none, some}
use opentelemetry_rust_contr.Common.Text.{Str, codes}
use opentelemetry_rust_contr.Stackdriver.{ProtoResource, InternalLogContext, insert}

pub data MonitoredResource : Type 0 where
  -- project_id, module_id, version_id, zone
  app_engine : Str → Option Str → Option Str → Option Str → MonitoredResource
  -- project_id, function_name, region
  cloud_function : Str → Option Str → Option Str → MonitoredResource
  -- project_id, job_name, location
  cloud_run_job : Str → Option Str → Option Str → MonitoredResource
  -- project_id, service_name, revision_name, location, configuration_name
  cloud_run_revision : Str → Option Str → Option Str → Option Str → Option Str → MonitoredResource
  -- project_id, instance_id, zone
  compute_engine : Str → Option Str → Option Str → MonitoredResource
  -- project_id, cluster_name, location, pod_name, namespace_name, container_name
  kubernetes_engine :
      Str → Option Str → Option Str → Option Str → Option Str → Option Str → MonitoredResource
  -- project_id, location, namespace, node_id
  generic_node : Str → Option Str → Option Str → Option Str → MonitoredResource
  -- project_id, location, namespace, job, task_id
  generic_task : Str → Option Str → Option Str → Option Str → Option Str → MonitoredResource
  global : Str → MonitoredResource

pub record LogContext : Type 0 where
  pub log_id : Str
  pub resource : MonitoredResource

unfoldable pub insert_some : Str → Option Str → List (Str × Str) → List (Str × Str)
insert_some key none labels = labels
insert_some key (some v) labels = insert key v labels

unfoldable pub insert_each : List (Str × Option Str) → List (Str × Str) → List (Str × Str)
insert_each [] labels = labels
insert_each ((key, v) ∷ more) labels = insert_each more (insert_some key v labels)

unfoldable pub typed : Str → Str → List (Str × Option Str) → ProtoResource
typed name project_id optional = record {
  resource_type = name;
  labels = insert_each optional (insert (codes "project_id") project_id []);
}

unfoldable pub proto_resource : MonitoredResource → ProtoResource
proto_resource (app_engine project module_id version_id zone) =
    typed (codes "gae_app") project (
      (codes "module_id", module_id) ∷ (codes "version_id", version_id) ∷ (codes "zone", zone) ∷ [])
proto_resource (cloud_function project function_name region) =
    typed (codes "cloud_function") project
      ((codes "function_name", function_name) ∷ (codes "region", region) ∷ [])
proto_resource (cloud_run_job project job_name location) =
    typed (codes "cloud_run_job") project
      ((codes "job_name", job_name) ∷ (codes "location", location) ∷ [])
proto_resource (cloud_run_revision project service_name revision_name location configuration_name) =
    typed (codes "cloud_run_revision") project (
      (codes "service_name", service_name)
      ∷ (codes "revision_name", revision_name)
      ∷ (codes "location", location)
      ∷ (codes "configuration_name", configuration_name)
      ∷ [])
proto_resource (compute_engine project instance_id zone) =
    typed (codes "gce_instance") project
      ((codes "instance_id", instance_id) ∷ (codes "zone", zone) ∷ [])
proto_resource (generic_node project location namespace node_id) =
    typed (codes "generic_node") project (
      (codes "location", location)
      ∷ (codes "namespace", namespace)
      ∷ (codes "node_id", node_id)
      ∷ [])
proto_resource (generic_task project location namespace job task_id) =
    typed (codes "generic_task") project (
      (codes "location", location)
      ∷ (codes "namespace", namespace)
      ∷ (codes "job", job)
      ∷ (codes "task_id", task_id)
      ∷ [])
proto_resource (global project) = typed (codes "global") project []
proto_resource
      (kubernetes_engine project cluster_name location pod_name namespace_name container_name) =
    typed (codes "k8s_container") project (
      (codes "cluster_name", cluster_name)
      ∷ (codes "location", location)
      ∷ (codes "pod_name", pod_name)
      ∷ (codes "namespace_name", namespace_name)
      ∷ (codes "container_name", container_name)
      ∷ [])

unfoldable pub log_context_from : LogContext → InternalLogContext
log_context_from cx = record { log_id = cx.log_id; resource = proto_resource cx.resource }
