-- ===== src/Gate/Tests.antt =====
-- Runs of the abuse controls.
use pour.Prelude.{
  ℕ, ◌+◌, ◌≤◌, ◌≡◌, ◌≢◌, refl, true, false, List, [], ◌∷◌, ◌++◌, none, some, length, ltb, replicate,
  String, string_dec,
}
use pour.Prelude.{ok, err, ◌>>=◌}
use pour.Prelude.Dict.{lookup}
use pour.Gate.Nonce.{new_nonce_store, issue, consume, sweep}
use pour.Gate.Nonce.SingleUse.{
  Call, issues, consumes, uses, issued, perform, uses_at_most_issued, issue-consume,
}
use pour.Gate.ApiKey.{
  Bytes, Codecs, KeyError, CreateParams, Key, KeyRow, KeyTable, create, authenticate, check_key,
  key_of_row, revoke, revoked, parse_bearer,
}
use pour.Gate.ApiKey.Genuine.{Lets, key_id, encoded_body, authenticate-Lets}
use pour.Gate.ApiKey.Revoked.{
  run, Call as KeyCall, authenticates, revokes, IsRevoked, revoked_for_good,
}
use pour.Gate.Admit.{
  anonymous, Decision, ChainContext, AbuseConfig, PourRequest, Services, decision, extract_ip,
  dispatch, admit_keyless, admit_unsigned, admit_anonymous, admit,
}
use pour.Gate.Admit.Charged.{Admitted, admit-Admitted}

abbrev two_uses : List Call
two_uses = issues (some "n") 10 10 ∷ consumes "n" 20 ∷ consumes "n" 21 ∷ []

used_once : uses "n" two_uses (new_nonce_store 60) ≡ 1
unfolding uses perform issue consume sweep new_nonce_store string_dec
used_once = refl

uses_at_most_issued_example : uses "n" two_uses (new_nonce_store 60) ≤ issued "n" two_uses + 0
unfolding new_nonce_store
uses_at_most_issued_example = uses_at_most_issued "n" two_uses (new_nonce_store 60)

issue-consume_example :
    (consume "n" 20 (issue (some "n") 10 10 (record { nonces = []; ttl = 60 })).1).0 ≡ ltb 20 70
issue-consume_example = issue-consume "n" 10 10 20 (record { nonces = []; ttl = 60 })

abbrev body : Bytes
body = replicate 32 7

-- Codecs that know one body.
abbrev toy : Codecs
toy = record {
  hex = λ b. "0123456789abcdef";
  encode = λ b. "body";
  decode = λ s. some body;
  argon2 = λ b salt. b;
  scope_to_json = λ scope. "[]";
  scope_of_json = λ s. some [];
  drips_to_json = λ m. "{}";
  drips_of_json = λ s. some [];
}

abbrev row : KeyRow
row = record {
  secret_hash = replicate 16 1 ++ body;
  label = "ci";
  chain_scope = "[]";
  per_chain_drips = none;
  rate_limit_per_hour = none;
  expires_at = none;
  created_at = 1;
  last_used_at = none;
  revoked_at = none;
}

abbrev table : KeyTable
table = ("key_0123456789abcdef", row) ∷ ("key_old", record row { revoked_at = some 2 }) ∷ []

abbrev secret : String
secret = "pour_key_0123456789abcdefbody"

abbrev key : Key
key = record {
  id = "key_0123456789abcdef";
  label = "ci";
  chain_scope = [];
  per_chain_drips = [];
  rate_limit_per_hour = 0;
  expires_at = none;
  created_at = 1;
  last_used_at = none;
}

authenticates_key : (authenticate toy secret false false 9 9 table).0 ≡ ok key
unfolding authenticate check_key key_of_row string_dec
authenticates_key = refl

authenticate-Lets_example :
    (b : Bytes) × (r : KeyRow) × (toy.decode (encoded_body secret) ≡ some b)
    × (length b ≡ 32)
    × (key.id ≡ key_id secret)
    × (lookup string_dec "key_0123456789abcdef" table ≡ some r)
    × Lets toy 9 b r
authenticate-Lets_example = authenticate-Lets toy secret false false 9 9 table key authenticates_key

old-IsRevoked : IsRevoked toy "key_old" table
unfolding string_dec
old-IsRevoked = (record row { revoked_at = some 2 }, refl, refl)

authenticates_later :
    (authenticate toy secret false false 9 9 (run toy (revokes "key_old" false 8 ∷ []) table)).0
    ≡ ok key
unfolding run pour.Gate.ApiKey.Revoked.perform revoke authenticate check_key key_of_row string_dec
authenticates_later = refl

abbrev old_id : String
old_id = "key_old"

revoked_for_good_example : key.id ≢ old_id
revoked_for_good_example =
    revoked_for_good toy (revokes "key_old" false 8 ∷ []) old_id table secret false false 9 9 key
      old-IsRevoked authenticates_later

-- Services that admit everyone, and count the charges.
abbrev open_services : Services
open_services = record {
  State = ℕ;
  split_host = λ a. some a;
  parse_coin = λ s. none;
  authenticate = λ s n. (err revoked, n);
  verify_pow = λ ch so n. (ok true, n);
  consume = λ s n. (true, n);
  verify_signature = λ a p g m n. (ok true, n);
  check_predicate = λ p ch a m n. (ok tt, n);
  check_ip = λ a ch n. (ok tt, n);
  check_address = λ a algo ch drip max n. (ok tt, n + 1);
  check_api_key = λ id ch rate n. (ok tt, n);
}

abbrev nothing_required : AbuseConfig
nothing_required = record {
  pow_enabled = false;
  api_keys_enabled = true;
  signature_enabled = true;
  require_predicate = "none";
  predicate_chain_id = "";
  predicate_min_amount = "";
}

abbrev osmosis : ChainContext
osmosis = record {
  chain_id = "osmosis-1";
  key_algo = "secp256k1";
  drip_anonymous = record { denom = "uosmo"; amount = "100" };
  drip_signed = record { denom = "uosmo"; amount = "500" };
  max_per_day = record { denom = "uosmo"; amount = "1000" };
}

abbrev plain_request : PourRequest
plain_request = record {
  remote_addr = "1.2.3.4";
  authorization = "";
  to_address = "osmo1a";
  pow_credential = none;
  sig_credential = none;
}

abbrev anonymous_drip : Decision
anonymous_drip = decision anonymous (osmosis.drip_anonymous) "" ""

admits_anonymous :
    (admit open_services nothing_required plain_request osmosis 0).0 ≡ ok anonymous_drip
unfolding admit extract_ip ◌>>=◌ dispatch admit_keyless admit_unsigned admit_anonymous parse_bearer
admits_anonymous = refl

admit-Admitted_example :
    Admitted open_services nothing_required plain_request osmosis anonymous_drip
      (admit open_services nothing_required plain_request osmosis 0).1
admit-Admitted_example =
    admit-Admitted open_services nothing_required plain_request osmosis 0 anonymous_drip
      admits_anonymous
