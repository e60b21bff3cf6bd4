-- ===== src/Stream/Url/Reading.antt =====
-- A reader of an address: it takes the base off and undoes the percent encoding of the org.
use Prim.Native.Nat.{◌/◌, ◌%◌}
use clavex_operator.Prelude.{
  ℕ, ◌+◌, ◌-◌, ◌<◌, ◌*◌, String, Bool, true, false, [], ◌∷◌, ◌++◌, Option, none, some, ◌==◌, ◌≡◌,
  refl, arith, if◌then◌else◌, ◌∙◌, sym, ap,
}
use mathlib.Core.List.{append_assoc}
use clavex_operator.Stream.Url.{
  Bytes, ascii, after_prefix, slash, percent, is_in, is_kept, hex_digit, escape_byte, path_escape,
}

-- The value of a hexadecimal digit.
unfoldable pub hex_value : ℕ → Option ℕ
hex_value c =
    if is_in 48 57 c
    then some (c - 48)
    else if is_in 65 70 c
    then some (c - 55)
    else if is_in 97 102 c
    then some (c - 87)
    else none

-- A reader of the first segment of a path: it undoes the percent encoding and ends at a slash. It
-- stands between two bytes, after a percent sign, or after the first digit.
pub data Reading : Type 0 where
  plain : Reading
  sign : Reading
  digit : ℕ → Reading

abbrev pub prepend : ℕ → Option (Bytes × Bytes) → Option (Bytes × Bytes)
prepend c none = none
prepend c (some (segment, rest)) = some (c ∷ segment, rest)

unfoldable pub read_segment : Reading → Bytes → Option (Bytes × Bytes)
unfolding hex_value
read_segment r [] = none
read_segment plain (c ∷ s) =
    if c == slash
    then some ([], s)
    else if c == percent
    then read_segment sign s
    else prepend c (read_segment plain s)
read_segment sign (c ∷ s) = elim (hex_value c) [ none ↦ none | some d ↦ read_segment (digit d) s ]
read_segment (digit d) (c ∷ s) = elim (hex_value c) [
  | none ↦ none
  | some e ↦ prepend (16 * d + e) (read_segment plain s)
]

abbrev pub AreBytes : Bytes → Type 0
AreBytes [] = Unit {0}
AreBytes (c ∷ s) = (c < 256) × AreBytes s

hex_value-hex_digit : (d : ℕ) → d < 16 → hex_value (hex_digit d) ≡ some d
unfolding hex_value
hex_value-hex_digit d h = ground arith

kept_plain : (c : ℕ) → is_kept c ≡ true → ((c == slash) ≡ false) × ((c == percent) ≡ false)
unfolding is_kept
kept_plain c h = ground arith

halves : (c : ℕ) → c < 256 → (c / 16 < 16) × (c % 16 < 16) × (16 * (c / 16) + c % 16 ≡ c)
halves c h = (omega arith, omega arith, omega arith)

read_segment-escape_byte :
    (c : ℕ) (s : Bytes)
    → c < 256
    → read_segment plain (escape_byte c ++ s) ≡ prepend c (read_segment plain s)
unfolding escape_byte read_segment
read_segment-escape_byte c s h = by_test (is_kept c) refl
  where
    by_test :
        (b : Bool)
        → is_kept c ≡ b
        → read_segment plain
            ((if b then c ∷ [] else percent ∷ hex_digit (c / 16) ∷ hex_digit (c % 16) ∷ []) ++ s)
          ≡ prepend c (read_segment plain s)
    by_test true k = rw (kept_plain c k).0 (rw (kept_plain c k).1 refl)
    by_test false k =
        let (high, low, sum) = halves c h in
        rw (hex_value-hex_digit (c / 16) high)
          (rw (hex_value-hex_digit (c % 16) low) (ap (λ x. prepend x (read_segment plain s)) sum))

read_segment-path_escape :
    (slug s : Bytes)
    → AreBytes slug
    → read_segment plain (path_escape slug ++ (slash ∷ s)) ≡ some (slug, s)
unfolding path_escape read_segment
read_segment-path_escape [] s h = refl
read_segment-path_escape (c ∷ slug) s (h, hs) =
    ap (read_segment plain) (append_assoc (escape_byte c) (path_escape slug) (slash ∷ s))
    ∙ read_segment-escape_byte c (path_escape slug ++ (slash ∷ s)) h
    ∙ ap (prepend c) (read_segment-path_escape slug s hs)

after_prefix-append : (p s : Bytes) → after_prefix p (p ++ s) ≡ some s
unfolding after_prefix
after_prefix-append [] s = refl
after_prefix-append (c ∷ p) s = ground (arith, after_prefix-append p s)

pub split_prefix : (p s r : Bytes) → after_prefix p s ≡ some r → s ≡ p ++ r
unfolding after_prefix
split_prefix [] s r h = ground arith
split_prefix (c ∷ p) [] r h = cc
split_prefix (c ∷ p) (d ∷ s) r h = ground (arith, split_prefix p s r)

abbrev pub starts_with : String → Bytes → Bool
starts_with scheme s = elim (after_prefix (ascii scheme) s) [ none ↦ false | some rest ↦ true ]

-- What a server with this base makes of an address: the org, and what follows it in the path.
unfoldable pub read_org : Bytes → Bytes → Option (Bytes × Bytes)
unfolding after_prefix read_segment
read_org base url = elim (after_prefix (base ++ (slash ∷ [])) url) [
  | none ↦ none
  | some path ↦ read_segment plain path
]

pub read_org-address :
    (base slug tail : Bytes)
    → AreBytes slug
    → read_org base (base ++ (slash ∷ (path_escape slug ++ (slash ∷ tail)))) ≡ some (slug, tail)
unfolding read_org
read_org-address base slug tail h =
    ap (read_org base) (sym (append_assoc base (slash ∷ []) (path_escape slug ++ (slash ∷ tail))))
    ∙ reads _ (after_prefix-append (base ++ (slash ∷ [])) (path_escape slug ++ (slash ∷ tail)))
  where
    reads :
        (url : Bytes)
        → after_prefix (base ++ (slash ∷ [])) url ≡ some (path_escape slug ++ (slash ∷ tail))
        → read_org base url ≡ some (slug, tail)
    reads url e = rw (read_org, e) (read_segment-path_escape slug tail h)
