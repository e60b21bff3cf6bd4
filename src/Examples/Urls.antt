-- ===== src/Examples/Urls.antt =====
-- The address of an org whose slug has a slash and a question mark.
use clavex_operator.Prelude.{false, some, ◌≡◌, refl, arith}
use clavex_operator.Stream.Manager.{replay_count}
use clavex_operator.Stream.Url.{
  Bytes, ascii, trim_slashes, path_escape, escape_byte, is_kept, after_prefix, ws_base, decimal,
  ws_url,
}
use clavex_operator.Stream.Url.Laws.{IsAddress, ends_in_slash, server_url-IsAddress}

abbrev raw_url : Bytes
raw_url = ascii "https://id.acme.example//"

abbrev slug : Bytes
slug = ascii "a/b?"

url_example :
    (ends_in_slash (trim_slashes raw_url) ≡ false)
    × IsAddress (trim_slashes raw_url) slug (ws_url (trim_slashes raw_url) replay_count slug)
unfolding ascii
url_example = server_url-IsAddress raw_url slug (ground arith)

-- What it is.
url_run :
    ws_url (trim_slashes raw_url) replay_count slug
    ≡ some (ascii "wss://id.acme.example/a%2Fb%3F/events?replay=50")
unfolding ws_url ws_base trim_slashes path_escape escape_byte is_kept after_prefix ascii decimal
url_run = refl
