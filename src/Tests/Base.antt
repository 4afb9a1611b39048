-- ===== src/Tests/Base.antt =====
-- A digest, a signer, a verifier, requests and databases for the tests.
use nexuscone.Prelude.{
  ℕ, zero, suc, ◌+◌, ◌*◌, ◌%◌, ◌<◌, ◌≡◌, true, false, none, some, [], ◌∷◌, arith, length,
  length-replicate, All, replicate,
}
use nexuscone.Text.{Bytes, codes}
use nexuscone.Json.{str, int, Members, end, member}
use nexuscone.Prelude.Int.{pos}
use nexuscone.Canonical.{Sha256}
use nexuscone.Time.{DateTime}
use nexuscone.Exec.{ok}
use nexuscone.Store.{EntryTable, Database}
use nexuscone.Entries.{Signer}
use nexuscone.Entries.Log.{Request}

-- A checksum in place of SHA-256.
abbrev pub checksum : Bytes → ℕ
checksum [] = 1
checksum (b ∷ bs) = (b + 31 * checksum bs) % 256

abbrev pub toy_digest : Bytes → Bytes
toy_digest m = replicate 32 (checksum m)

pub checksum-byte : (m : Bytes) → checksum m < 256
checksum-byte [] = omega arith
checksum-byte (b ∷ bs) = omega arith

All-replicate : (n b : ℕ) → b < 256 → All (λ c. c < 256) (replicate n b)
All-replicate zero b h = tt
All-replicate (suc n) b h = (h, All-replicate n b h)

pub toy-length : (m : Bytes) → length (toy_digest m) ≡ 32
toy-length m = length-replicate 32 (checksum m)

pub toy-bytes : (m : Bytes) → All (λ b. b < 256) (toy_digest m)
toy-bytes m = All-replicate 32 (checksum m) (checksum-byte m)

abbrev pub toy : Sha256
toy = record { digest = toy_digest; digest_length = toy-length; digest_bytes = toy-bytes }

abbrev pub noon : DateTime
noon = record {
  year = 2026;
  month = 2;
  day = 28;
  hour = 12;
  minute = 30;
  second = 5;
  microsecond = 250;
}

abbrev pub toy_signer : Signer
toy_signer = record { key_id = codes "k1"; sign = λ m. ok (checksum m ∷ []) }

abbrev pub payload : Members
payload = member (codes "user") (str (codes "ann")) (member (codes "amount") (int (pos 12)) end)

abbrev pub login : Request
login = record {
  now = noon;
  actor = codes "api";
  action = codes "login";
  payload = some payload;
  signer = none;
  event_type = codes "request";
}

abbrev pub approve : Request
approve = record {
  now = noon;
  actor = codes "judge";
  action = codes "approve";
  payload = none;
  signer = some toy_signer;
  event_type = codes "scope_violation";
}

abbrev pub no_entries : EntryTable
no_entries = record { has_event_type = true; has_format_version = true; rows = [] }

abbrev pub empty_db : Database
empty_db = record {
  entries = no_entries;
  anchors = record {
    has_tst_blob = true;
    has_tsa_url = true;
    has_tsa_gen_time = true;
    ots_proof_required = false;
    sequence = 0;
    rows = [];
  };
  witnesses = record { sequence = 0; rows = [] };
  attestations = record { sequence = 0; rows = [] };
}
