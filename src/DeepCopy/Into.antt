-- ===== src/DeepCopy/Into.antt =====
-- The steps that the DeepCopyInto methods are made of. A method gives the value that it leaves in
-- `out`, and the memory.
use clavex_operator.Prelude.{ℕ, zero, suc, String, List, [], ◌∷◌, Option, none, some, length}
use clavex_operator.AuthSecret.{put_entry}
use clavex_operator.DeepCopy.Memory.{Part, load_as}

-- `*out = *in`
abbrev pub assigned : {C T : Type 0} → T → List C → T × List C
assigned x m = (x, m)

-- `if in.F != nil { …; *out = make(…) or new(…); … }`, where `into` makes what the new address holds
-- of what the old one does. A nil field stays nil. The new address is given out when its content is
-- ready. An address of nothing, or of another type, cannot be in a Go program; it is left alone.
unfoldable pub copy_pointer :
    {C A : Type 0} → Part C A → (A → List C → A × List C) → Option ℕ → List C → Option ℕ × List C
copy_pointer part into none m = (none, m)
copy_pointer part into (some a) m = elim (load_as part a m) [
  | none ↦ (some a, m)
  | some v ↦ let (w, m') = into v m in (some (length m'), part.wrap w ∷ m')
]

-- `for i := range *in { (*in)[i].DeepCopyInto(&(*out)[i]) }`
unfoldable pub copy_each :
    {C T : Type 0} → (T → List C → T × List C) → List T → List C → List T × List C
copy_each into [] m = ([], m)
copy_each into (x ∷ xs) m =
    let (y, m₁) = into x m in let (ys, m₂) = copy_each into xs m₁ in (y ∷ ys, m₂)

-- `make([]string, len(*in))`
unfoldable pub make_strings : ℕ → List String
make_strings zero = []
make_strings (suc n) = "" ∷ make_strings n

-- `copy(*out, *in)`: as many elements as both have.
unfoldable pub copy_strings : List String → List String → List String
copy_strings [] xs = []
copy_strings (y ∷ ys) [] = y ∷ ys
copy_strings (y ∷ ys) (x ∷ xs) = x ∷ copy_strings ys xs

-- A slice of strings.
abbrev pub new_strings : {C : Type 0} → List String → List C → List String × List C
new_strings xs m = (copy_strings (make_strings (length xs)) xs, m)

-- `for key, val := range *in { (*out)[key] = val }`, in one of the orders of the map.
unfoldable pub copy_entries : List (String × String) → List (String × String)
copy_entries [] = []
copy_entries ((k, v) ∷ es) = put_entry k v (copy_entries es)

-- A map of strings.
abbrev pub new_entries :
    {C : Type 0} → List (String × String) → List C → List (String × String) × List C
new_entries es m = (copy_entries es, m)

-- `DeepCopy`: `if in == nil { return nil }; out := new(T); in.DeepCopyInto(out); return out`.
unfoldable pub deep_copy :
    {C T : Type 0} → (T → List C → T × List C) → Option T → List C → Option T × List C
deep_copy into none m = (none, m)
deep_copy into (some x) m = let (y, m') = into x m in (some y, m')
