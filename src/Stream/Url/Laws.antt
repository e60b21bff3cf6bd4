-- ===== src/Stream/Url/Laws.antt =====
-- The address of an org is read back, and its scheme is that of the server.
use clavex_operator.Prelude.{
  String, Bool, false, [], ◌∷◌, ◌++◌, Option, none, some, ◌&&◌, ◌==◌, ◌≡◌, refl, arith,
  if◌then◌else◌, sym,
}
use mathlib.Core.Path.{subst}
use clavex_operator.Stream.Url.{
  or_next, or_same, Bytes, ascii, after_prefix, slash, is_empty, trim_slashes, decimal, path_escape,
  ws_base, ws_url,
}
use clavex_operator.Stream.Manager.{replay_count}
use clavex_operator.Stream.Url.Reading.{
  AreBytes, split_prefix, starts_with, read_org, read_org-address,
}

-- The scheme of the server's URL, and that of the connection: encrypted if and only if it was.
pub data Translates : String → String → Type 0 where
  to_wss : Translates "https://" "wss://"
  to_ws : Translates "http://" "ws://"
  is_wss : Translates "wss://" "wss://"
  is_ws : Translates "ws://" "ws://"

pub record AddressOf (server_url slug url : Bytes) : Type 0 where
  pub scheme : String
  pub ws_scheme : String
  pub translates : Translates scheme ws_scheme
  pub host : Bytes
  pub splits : server_url ≡ ascii scheme ++ host
  pub reads : read_org (ascii ws_scheme ++ host) url ≡ some (slug, ascii "events?replay=50")

-- What is asked of `wsURL`: where the server's URL has one of the four schemes there is an address,
-- from which the server reads back the slug and the request for a replay; else there is none.
abbrev pub IsAddress : Bytes → Bytes → Option Bytes → Type 0
IsAddress server_url slug none =
    (starts_with "https://" server_url ≡ false)
    × (starts_with "http://" server_url ≡ false)
    × (starts_with "wss://" server_url ≡ false)
    × (starts_with "ws://" server_url ≡ false)
IsAddress server_url slug (some url) = AddressOf server_url slug url

module _ (server_url slug : Bytes) (h : AreBytes slug) where
  tail : Bytes
  tail = slash ∷ (path_escape slug ++ ascii "/events?replay=50")

  address :
      (scheme ws_scheme : String) (host : Bytes)
      → Translates scheme ws_scheme
      → after_prefix (ascii scheme) server_url ≡ some host
      → AddressOf server_url slug ((ascii ws_scheme ++ host) ++ tail)
  unfolding tail ascii
  address scheme ws_scheme host t e = record {
    scheme = scheme;
    ws_scheme = ws_scheme;
    translates = t;
    host = host;
    splits = split_prefix (ascii scheme) server_url host e;
    reads = read_org-address (ascii ws_scheme ++ host) slug (ascii "events?replay=50") h;
  }

  same_address :
      (scheme : String) (host : Bytes)
      → Translates scheme scheme
      → after_prefix (ascii scheme) server_url ≡ some host
      → AddressOf server_url slug (server_url ++ tail)
  same_address scheme host t e =
      subst (λ base. AddressOf server_url slug (base ++ tail))
        (sym (split_prefix (ascii scheme) server_url host e)) (address scheme scheme host t e)

  ws_url-IsAddress : IsAddress server_url slug (ws_url server_url replay_count slug)
  unfolding ws_url ws_base decimal tail ascii
  ws_url-IsAddress =
      by_scheme (after_prefix (ascii "https://") server_url)
        (after_prefix (ascii "http://") server_url) (after_prefix (ascii "wss://") server_url)
        (after_prefix (ascii "ws://") server_url) refl refl refl refl
    where
      by_scheme :
          (a b c d : Option Bytes)
          → after_prefix (ascii "https://") server_url ≡ a
          → after_prefix (ascii "http://") server_url ≡ b
          → after_prefix (ascii "wss://") server_url ≡ c
          → after_prefix (ascii "ws://") server_url ≡ d
          → IsAddress server_url slug
              (elim (or_next a "wss://"
                (or_next b "ws://" (or_same c server_url (or_same d server_url none)))) [
                  | none ↦ none
                  | some base ↦ some (base ++ tail)
                ])
      by_scheme (some r) b c d ha hb hc hd = address "https://" "wss://" r to_wss ha
      by_scheme none (some r) c d ha hb hc hd = address "http://" "ws://" r to_ws hb
      by_scheme none none (some r) d ha hb hc hd = same_address "wss://" r is_wss hc
      by_scheme none none none (some r) ha hb hc hd = same_address "ws://" r is_ws hd
      by_scheme none none none none ha hb hc hd = (rw ha refl, rw hb refl, rw hc refl, rw hd refl)

abbrev pub ends_in_slash : Bytes → Bool
ends_in_slash [] = false
ends_in_slash (c ∷ s) = if is_empty s then c == slash else ends_in_slash s

trim_slashes_lem : (s : Bytes) → ends_in_slash (trim_slashes s) ≡ false
unfolding trim_slashes
trim_slashes_lem [] = refl
trim_slashes_lem (c ∷ s) = by_rest (trim_slashes s) (trim_slashes_lem s)
  where
    by_rest :
        (t : Bytes)
        → ends_in_slash t ≡ false
        → ends_in_slash (if is_empty t && c == slash then [] else c ∷ t) ≡ false
    by_rest [] h = ground arith
    by_rest (d ∷ t) h = h

-- The server's URL is kept without slashes at its end. For every slug, whatever bytes it has, there
-- is an address exactly if that URL has one of the four schemes; the address is encrypted exactly if
-- the URL is, and a reader that takes the URL off it and undoes the percent encoding up to the next
-- slash gets back the slug, and after it "events?replay=50".
pub server_url-IsAddress :
    (raw_url slug : Bytes)
    → AreBytes slug
    → (ends_in_slash (trim_slashes raw_url) ≡ false)
      × IsAddress (trim_slashes raw_url) slug (ws_url (trim_slashes raw_url) replay_count slug)
server_url-IsAddress raw_url slug h =
    (trim_slashes_lem raw_url, ws_url-IsAddress (trim_slashes raw_url) slug h)
