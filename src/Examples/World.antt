-- ===== src/Examples/World.antt =====
-- A small world that the parameters of the models can be taken at: it holds at most one custom
-- resource and at most one live object, and every Secret holds an API key and an org id.
use clavex_operator.Prelude.{
  String, Bool, true, false, List, [], ◌∷◌, Option, none, some, ◌≡◌, refl, arith, ◌||◌, str_eq,
  eq_refl, if◌then◌else◌,
}
use clavex_operator.Api.{Answer, ok, fail, remote, NamespacedName, Resource}
use clavex_operator.AuthSecret.{Secret}
use clavex_operator.Reconcile.Calls.{Cluster}
use clavex_operator.Reconcile.Lawful.{FinalizerLaws}
use clavex_operator.Named.{Directory}
use clavex_operator.Named.Laws.{DirectoryLaws}
use clavex_operator.Named.Without.{without}

pub record World (Spec Live : Type 0) : Type 0 where
  pub stored : Option (Resource Spec)
  pub live : Option Live

unfoldable pub contains : String → List String → Bool
contains f [] = false
contains f (g ∷ fs) = str_eq g f || contains f fs

unfoldable pub add : String → List String → List String
unfolding contains
add f fs = if contains f fs then fs else f ∷ fs

unfoldable pub remove : String → List String → List String
remove f [] = []
remove f (g ∷ fs) = if str_eq g f then remove f fs else g ∷ remove f fs

abbrev pub given : {A : Type 0} → Option A → Answer A
given none = fail (remote true "not found")
given (some a) = ok a

abbrev pub a_secret : NamespacedName → Secret
a_secret key = record {
  key = key;
  contents = ("apiKey", "k1") ∷ ("orgId", "acme-id") ∷ ("secret", "s1") ∷ [];
}

abbrev pub cluster : (Spec Live : Type 0) → Cluster (World Spec Live) Spec
cluster Spec Live = record {
  get = λ key w. (given w.stored, w);
  update = λ cr w. (ok cr, record w { stored = some cr });
  update_status = λ cr w. (ok cr, record w { stored = some cr });
  get_secret = λ key w. (ok (a_secret key), w);
  create_secret = λ secret w. (ok tt, w);
  update_secret = λ secret w. (ok tt, w);
  new_client = λ key w. (ok (record { api_key = key }), w);
  now = λ w. (7, w);
  contains_finalizer = contains;
  add_finalizer = add;
  remove_finalizer = remove;
}

pub cluster-FinalizerLaws : (Spec Live : Type 0) → FinalizerLaws (cluster Spec Live)
unfolding contains add
cluster-FinalizerLaws Spec Live = record { contains_add = λ f fs. ground (arith, eq_refl f) }

abbrev pub all_live : {Spec Live : Type 0} → World Spec Live → List Live
all_live w = elim w.live [ none ↦ [] | some x ↦ x ∷ [] ]

unfoldable pub gone : {Live : Type 0} → (Live → String) → String → Option Live → Option Live
gone id_of id none = none
gone id_of id (some x) = if str_eq (id_of x) id then none else some x

abbrev pub directory :
    (Spec : Type 0) {Live : Type 0}
    → (Live → String)
    → (Live → String)
    → Directory (World Spec Live) Live
directory Spec id_of name_of = record {
  id = id_of;
  name = name_of;
  list = λ session org w. (ok (all_live w), w);
  delete = λ session org id w. (ok tt, record w { live = gone id_of id w.live });
}

left :
    {Spec Live : Type 0} (id_of : Live → String) (id : String) (s : Option (Resource Spec))
    (o : Option Live)
    → let w : World Spec Live = record { stored = s; live = gone id_of id o } in
      let v : World Spec Live = record { stored = s; live = o } in
      all_live w ≡ without id_of id (all_live v)
unfolding gone without
left id_of id s none = refl
left id_of id s (some x) = ground arith

pub directory-DirectoryLaws :
    (Spec : Type 0) {Live : Type 0} (id_of name_of : Live → String)
    → DirectoryLaws (directory Spec id_of name_of)
directory-DirectoryLaws Spec id_of name_of = record {
  live = λ org w. all_live w;
  list_reads = λ session org w xs h. ground arith;
  delete_removes = λ session org id w h. left id_of id w.stored w.live;
}
