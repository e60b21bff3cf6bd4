-- ===== src/Examples/Starts.antt =====
-- Starts of the program: a cluster without resources, and a runtime that refuses the fourth call.
use clavex_operator.Prelude.{ℕ, false, [], Option, none, some, ltb, if◌then◌else◌, ◌+◌}
use clavex_operator.Api.{ok, Error, remote}
use clavex_operator.Entry.{Lists, Call, main}
use clavex_operator.Entry.Options.{Flags, default_flags}
use clavex_operator.Entry.Laws.{Follows, plan, main-Follows}
use clavex_operator.Entry.Sound.{AreSound, main_sound}

abbrev empty_lists : Lists ℕ
empty_lists = record {
  clients = λ w. (ok [], w);
  identity_providers = λ w. (ok [], w);
  roles = λ w. (ok [], w);
  groups = λ w. (ok [], w);
  webhooks = λ w. (ok [], w);
  orgs = λ w. (ok [], w);
  auth_policies = λ w. (ok [], w);
}

-- The runtime's state is the number of calls so far.
abbrev refuses_fourth : Call ℕ → ℕ → Option Error × ℕ
refuses_fourth call m = (if ltb m 3 then none else some (remote false "no such kind"), m + 1)

abbrev flags : Flags
flags = default_flags "https://id.acme.example"

follows_example :
    Follows
      (plan empty_lists flags "")
      (main refuses_fourth empty_lists flags "" 0).calls
      (main refuses_fourth empty_lists flags "" 0).exits
follows_example = main-Follows refuses_fourth empty_lists flags "" 0

sound_example : AreSound flags (main refuses_fourth empty_lists flags "" 0).calls
sound_example = main_sound refuses_fourth empty_lists flags "" 0
