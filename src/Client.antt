-- ===== src/Client.antt =====
-- packages/control-plane/src/domain/client.ts: the clients that can be asked for, and their support.
use agx.Prelude.{String, Option, none, some, Bool, true, false, List, [], ◌∷◌}
use agx.Prelude.Text.{texts}

pub data ClientId : Type 0 where
  omp claude_code codex_cli : ClientId

abbrev pub client_text : ClientId → String
client_text omp = "omp"
client_text claude_code = "claude-code"
client_text codex_cli = "codex-cli"

abbrev pub all_client_ids : List ClientId
all_client_ids = omp ∷ claude_code ∷ codex_cli ∷ []

pub record ClientSupport : Type 0 where
  pub supported : Bool
  pub reason : Option String

abbrev unsupported_reason : ClientId → String
unsupported_reason c = texts (
    "client \""
    ∷ client_text c
    ∷ "\" is not supported yet -- this is a future adapter boundary, not a placeholder implementation, configuration translation or compatibility shim"
    ∷ [])

unfoldable pub resolve_client_support : ClientId → ClientSupport
resolve_client_support codex_cli = record {
  supported = false;
  reason = some (unsupported_reason codex_cli);
}
resolve_client_support _ = record { supported = true; reason = none }
