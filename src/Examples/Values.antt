-- ===== src/Examples/Values.antt =====
-- The lookups, the conditions and the event stream's pool at concrete values.
use mathlib.Core.List.{Perm}
use clavex_operator.Prelude.{
  ℕ, String, true, false, List, [], ◌∷◌, none, some, ◌≡◌, refl, ◌↔◌, if◌then◌else◌,
}
use clavex_operator.Api.{
  Answer, ok, fail, remote, SecretRef, NamespacedName, Resource, Condition, condition_true,
  condition_false, text,
}
use clavex_operator.Compare.{equal_string_sets}
use clavex_operator.Compare.Perm.{equal_string_sets_iff}
use clavex_operator.Conditions.{set_condition, find_condition}
use clavex_operator.Conditions.Laws.{set_condition_written, time_after}
use clavex_operator.AuthSecret.{Secret, Credentials, resolve_auth_secret}
use clavex_operator.AuthSecret.Laws.{Backed, resolve_auth_secret_iff}
use clavex_operator.Stream.Pool.{Pool, Item, Registration, find_slug, has_slug, reconcile_conns}
use clavex_operator.Stream.Pool.Laws.{IsDistinct, reconcile_conns_open, reconcile_conns_exact}
use clavex_operator.Stream.Pool.Discovery.{mentions, listed}

abbrev ab : List String
ab = "a" ∷ "b" ∷ []

abbrev ba : List String
ba = "b" ∷ "a" ∷ []

sets_example : (equal_string_sets ab ba ≡ true) ↔ Perm ab ba
sets_example = equal_string_sets_iff ab ba

abbrev ready : Condition
ready = record {
  type = "Ready";
  status = condition_true;
  reason = "Synced";
  message = text "in sync";
  observed_generation = 1;
  last_transition_time = 3;
}

abbrev a_resource : Resource String
a_resource = record {
  meta = record {
    namespace = "team";
    name = "thing";
    generation = 2;
    deletion_timestamp = none;
    finalizers = [];
  };
  spec = "spec";
  status = record {
    conditions = ready ∷ [];
    observed_generation = 1;
    remote_id = "";
    last_synced_at = none;
  };
}

abbrev updated : Resource String
updated = set_condition 9 "Synced" condition_false "ReconcileError" (text "no") a_resource

written_example :
    (c : Condition) × (find_condition "Synced" updated.status.conditions ≡ some c)
    × (c.status ≡ condition_false)
    × (c.reason ≡ "ReconcileError")
    × (c.message ≡ text "no")
    × (c.observed_generation ≡ 2)
    × (c.last_transition_time
        ≡ time_after 9 condition_false (find_condition "Synced" a_resource.status.conditions))
written_example =
    set_condition_written 9 "Synced" condition_false "ReconcileError" (text "no") a_resource

abbrev a_ref : SecretRef
a_ref = record { name = "creds"; namespace = ""; key = "" }

abbrev creds : Secret
creds = record {
  key = record { namespace = "team"; name = "creds" };
  contents = ("apiKey", "k1") ∷ ("orgId", "acme-id") ∷ [];
}

abbrev get_creds : NamespacedName → ℕ → Answer Secret × ℕ
get_creds key w = (ok creds, w)

abbrev parsed : Credentials
parsed = record { api_key = "k1"; org_id = "acme-id" }

resolve_example :
    ((resolve_auth_secret get_creds a_ref "team" 0).0 ≡ ok parsed)
    ↔ Backed get_creds a_ref "team" 0 parsed
resolve_example = resolve_auth_secret_iff get_creds a_ref "team" 0 parsed

abbrev pool : Pool
pool = record { running = true; conns = ("old", "k0") ∷ ("gone", "k9") ∷ [] }

abbrev item : String → Item
item slug = record {
  object = record { namespace = "team"; name = "thing" };
  org_slug = slug;
  secret_ref = a_ref;
  namespace = "team";
}

abbrev regs : List (Registration ℕ)
regs =
    record { resource_type = "client"; lister = λ w. (ok (item "old" ∷ item "new" ∷ []), w) }
    ∷ record { resource_type = "role"; lister = λ w. (fail (remote false "down"), w) }
    ∷ []

abbrev resolve_key : SecretRef → String → ℕ → Answer String × ℕ
resolve_key ref ns w = (ok "k1", w)

pool-IsDistinct : IsDistinct pool.conns
unfolding find_slug
pool-IsDistinct = (refl, (refl, tt))

pool_holds : find_slug "old" pool.conns ≡ some "k0"
unfolding find_slug
pool_holds = refl

open_example :
    find_slug "old" (reconcile_conns resolve_key regs pool 0).0.conns
    ≡ (if mentions "old" (listed regs 0) then some "k0" else none)
open_example = reconcile_conns_open resolve_key regs pool 0 "old" "k0" pool_holds

exact_conns_example :
    has_slug "new" (reconcile_conns resolve_key regs pool 0).0.conns
    ≡ mentions "new" (listed regs 0)
exact_conns_example = reconcile_conns_exact resolve_key regs pool 0 "new" (λ ref ns w. refl)
