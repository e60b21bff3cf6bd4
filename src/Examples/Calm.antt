-- ===== src/Examples/Calm.antt =====
-- A world in which nothing fails and nobody else writes.
use clavex_operator.Prelude.{Option, ◌≡◌, refl, ◌∙◌}
use clavex_operator.Api.{ok, Resource}
use clavex_operator.AuthSecret.{
  Credentials, resolve_auth_secret, read_credentials, required_entry, entry,
}
use clavex_operator.Reconcile.{Kind}
use clavex_operator.Reconcile.Calls.{Cluster, Session}
use clavex_operator.Reconcile.Environment.{Environment}
use clavex_operator.Examples.World.{contains, add, remove, a_secret}
use clavex_operator.Examples.Passes.{a_ref, key}

-- A world with one resource, and at most one live object.
pub record Place (Spec Live : Type 0) : Type 0 where
  pub stored : Resource Spec
  pub live : Option Live

abbrev pub credentials : Credentials
credentials = record { api_key = "k1"; org_id = "acme-id" }

abbrev pub session : Session
session = record { api_key = "k1" }

module _ (Spec Live : Type 0) where
  abbrev pub calm_cluster : Cluster (Place Spec Live) Spec
  calm_cluster = record {
    get = λ key w. (ok w.stored, w);
    update = λ cr w. (ok cr, record w { stored = cr });
    update_status = λ cr w. (ok cr, record w { stored = cr });
    get_secret = λ key w. (ok (a_secret key), w);
    create_secret = λ secret w. (ok tt, w);
    update_secret = λ secret w. (ok tt, w);
    new_client = λ key w. (ok (record { api_key = key }), w);
    now = λ w. (7, w);
    contains_finalizer = contains;
    add_finalizer = add;
    remove_finalizer = remove;
  }

  abbrev pub Has : Spec → Place Spec Live → Type 0
  Has spec w = w.stored.spec ≡ spec

  pub calm-Environment :
      {Remote : Type 0} (kind : Kind (Place Spec Live) Spec) (spec : Spec)
      (remote : Option Live → Remote)
      → kind.auth_secret_ref spec ≡ a_ref
      → Environment calm_cluster kind
          (Has spec)
          (λ w. w.stored)
          (λ w. remote w.live)
          key
          credentials
          session
  unfolding resolve_auth_secret read_credentials required_entry entry
  calm-Environment kind spec remote e = record {
    gets = λ w i. (refl, (i, refl, refl));
    resolves = λ w i. resolves w.stored w i;
    reads_secret = λ key w i. (i, refl, refl);
    builds = λ w i. (refl, (i, refl, refl));
    tells_time = λ w i. (i, refl, refl);
    updates = λ w fs i. (refl, (i, refl, refl));
    updates_status = λ w cr i m e. (refl, (e ∙ i, refl, refl));
  }
    where
      resolves :
          (cr : Resource Spec) (w : Place Spec Live)
          → cr.spec ≡ spec
          → (resolve_auth_secret calm_cluster.get_secret
              (kind.auth_secret_ref cr.spec)
              cr.meta.namespace
              w).0
            ≡ ok credentials
      resolves cr w i = rw i (rw e refl)
