-- ===== src/Examples/Secrets.antt =====
-- A cluster that keeps one Secret's data, and a client secret on its way through it.
use clavex_operator.Prelude.{String, true, false, arith, [], Option, none, some, ◌≡◌, refl, List}
use clavex_operator.Api.{Answer, ok, fail, remote, is_not_found, NamespacedName}
use clavex_operator.AuthSecret.{Secret, resolve_secret_value, default_client_secret_key}
use clavex_operator.Reconcile.Flow.{next, state_of}
use clavex_operator.Reconcile.Calls.{Cluster, State, start, ask, tell}
use clavex_operator.Client.{ClientSpec, ClientService, persist_secret}
use clavex_operator.Client.Secrets.RoundTrip.{SecretStore, persist_then_resolve}
use clavex_operator.Examples.Passes.{a_ref}
use clavex_operator.Examples.Clients.{cr}

-- The data, where the Secret is there.
abbrev Shelf : Type 0
Shelf = Option (List (String × String))

abbrev look : NamespacedName → Shelf → Answer Secret
look key none = fail (remote true "no such secret")
look key (some contents) = ok (record { key = key; contents = contents })

abbrev shelf_cluster : Cluster Shelf ClientSpec
shelf_cluster = record {
  get = λ key w. (ok cr, w);
  update = λ cr w. (ok cr, w);
  update_status = λ cr w. (ok cr, w);
  get_secret = λ key w. (look key w, w);
  create_secret = λ secret w. (ok tt, some secret.contents);
  update_secret = λ secret w. (ok tt, some secret.contents);
  new_client = λ key w. (ok (record { api_key = key }), w);
  now = λ w. (7, w);
  contains_finalizer = λ f fs. true;
  add_finalizer = λ f fs. fs;
  remove_finalizer = λ f fs. [];
}

shelf-SecretStore : SecretStore shelf_cluster
shelf-SecretStore = record {
  gives = λ key w secret h. same key w secret h;
  reads_update = λ secret w h. refl;
  reads_create = λ secret w h. refl;
}
  where
    same :
        (key : NamespacedName) (w : Shelf) (secret : Secret)
        → look key w ≡ ok secret
        → secret.key ≡ key
    same key none secret h = cc
    same key (some contents) secret h = ground arith

abbrev no_service : ClientService Shelf
no_service = record {
  get = λ session org id w. (fail (remote true "no such client"), w);
  create = λ session marker org p w. (fail (remote false "full"), w);
  update = λ session marker org id p w. (fail (remote false "full"), w);
  delete = λ session org id w. (ok tt, w);
}

abbrev before : State Shelf ClientSpec
before = start none none

persists :
    persist_secret shelf_cluster true no_service cr (some a_ref) "s9" before
    ≡ next tt (state_of (persist_secret shelf_cluster true no_service cr (some a_ref) "s9" before))
unfolding persist_secret ask tell is_not_found
persists = refl

persisted_example :
    (resolve_secret_value shelf_cluster.get_secret
      (some a_ref)
      cr.meta.namespace
      default_client_secret_key
      (state_of (persist_secret shelf_cluster true no_service cr (some a_ref) "s9" before)).world).0
    ≡ ok "s9"
persisted_example =
    persist_then_resolve shelf_cluster true no_service shelf-SecretStore cr a_ref "s9" before _ refl
      persists
