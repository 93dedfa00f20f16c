-- ===== src/Datadog/Tags.antt =====
-- The tags service, env and version (opentelemetry-datadog/src/exporter/model/unified_tags.rs). The
-- environment of the process and `to_lowercase` of texts are parameters.
use opentelemetry_rust_contr.Common.{ℕ, ◌+◌, Option, none, some}
use mathlib.Core.Option
use opentelemetry_rust_contr.Common.Text.{Str, codes}

pub data UnifiedTagEnum : Type 0 where
  service_tag version_tag env_tag : UnifiedTagEnum

unfoldable pub get_env_variable_name : UnifiedTagEnum → Str
get_env_variable_name service_tag = codes "DD_SERVICE"
get_env_variable_name version_tag = codes "DD_VERSION"
get_env_variable_name env_tag = codes "DD_ENV"

unfoldable pub get_tag_name : UnifiedTagEnum → Str
get_tag_name service_tag = codes "service"
get_tag_name version_tag = codes "version"
get_tag_name env_tag = codes "env"

pub record UnifiedTagField : Type 0 where
  pub value : Option Str
  pub kind : UnifiedTagEnum

pub record UnifiedTags : Type 0 where
  pub service : UnifiedTagField
  pub env : UnifiedTagField
  pub version : UnifiedTagField

unfoldable pub tag_len : UnifiedTagField → ℕ
tag_len self = elim self.value [ none ↦ 0 | some value ↦ 1 ]

unfoldable pub compute_attribute_size : UnifiedTags → ℕ
compute_attribute_size self = tag_len self.service + tag_len self.env + tag_len self.version

module _ (to_lowercase : Str → Str) (env_var : Str → Option Str) where
  unfoldable pub find_unified_tag_value : UnifiedTagEnum → Option Str
  find_unified_tag_value self = Option.map to_lowercase (env_var (get_env_variable_name self))

  unfoldable pub new_tag_field : UnifiedTagEnum → UnifiedTagField
  new_tag_field kind = record { value = find_unified_tag_value kind; kind = kind }

  unfoldable pub new_unified_tags : UnifiedTags
  new_unified_tags = record {
    service = new_tag_field service_tag;
    env = new_tag_field env_tag;
    version = new_tag_field version_tag;
  }

unfoldable pub set_service : UnifiedTags → Option Str → UnifiedTags
set_service self service = record self { service = record self.service { value = service } }

unfoldable pub set_version : UnifiedTags → Option Str → UnifiedTags
set_version self version = record self { version = record self.version { value = version } }

unfoldable pub set_env : UnifiedTags → Option Str → UnifiedTags
set_env self env = record self { env = record self.env { value = env } }
