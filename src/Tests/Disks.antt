-- ===== src/Tests/Disks.antt =====
-- A command line over a disk of named files.
use apohara_sealchain.Prelude.{
  ◌≡◌, refl, ap, sym, subst, String, Bytes, Bool, true, false, ◌==◌, eq_iff, eq_refl, ℕ_discrete,
  List, [], ◌∷◌, none, some, if◌then◌else◌,
}
use apohara_sealchain.Error.{Result, ok, err}
use apohara_sealchain.Json.{Value}
use apohara_sealchain.Schema.{record_to_value}
use apohara_sealchain.Sealing.{Environment}
use apohara_sealchain.Keystore.Dir.{no_faults, Host}
use apohara_sealchain.Cli.Inputs.{file as file_there, nothing}
use apohara_sealchain.Cli.RunSeal.{System}
use apohara_sealchain.Cli.RunSeal.Kept.{SystemLaws}
use apohara_sealchain.Tests.Toy.{toy}
use apohara_sealchain.Tests.Engine.{key}
use apohara_sealchain.Tests.Keys.{toy_keystore}
use apohara_sealchain.Tests.Crates.{toy_crates}
use apohara_sealchain.Tests.Policies.{toy_chrono}
use apohara_sealchain.Tests.Sealed.{toy_environment, sealed_file}

unfoldable pub decided : (a b : String) (t : Bool) → (a == b) ≡ t → Dec (a ≡ b)
decided a b true e = yes ((eq_iff a b).0 e)
decided a b false e = no (λ h. cc (ap (λ x. x == b) h, eq_refl b))

unfoldable pub String_discrete : Discrete String
unfolding decided
String_discrete a b = decided a b (a == b) refl

unfoldable pub Value-discrete : Discrete Value
Value-discrete = hlevel (ℕ_discrete, String_discrete)

-- A disk is what was written, the last first.
abbrev pub Disk : Type 0
Disk = List (String × Bytes)

unfoldable pub read : Disk → String → Result String Bytes
read [] path = err "no such file"
read ((p, b) ∷ disk) path = if p == path then ok b else read disk path

abbrev pub write : Disk → String → Bytes → Result String Disk
write disk path b = ok ((path, b) ∷ disk)

abbrev pub printed_value : Value
printed_value = record_to_value sealed_file

-- The printer knows one record.
unfoldable pub print_if : {v : Value} → Dec (v ≡ printed_value) → Result String Bytes
print_if (yes same) = ok (7 ∷ [])
print_if (no differs) = err "not printed"

abbrev pub to_string_pretty : Value → Result String Bytes
to_string_pretty v = print_if (Value-discrete v printed_value)

print_if-ok :
    {v : Value} (d : Dec (v ≡ printed_value)) (text : Bytes)
    → print_if d ≡ ok text
    → printed_value ≡ v
unfolding print_if
print_if-ok (yes same) text h = sym same
print_if-ok (no differs) text h = cc

abbrev pub disk_environment : Environment toy
disk_environment = record {
  Disk = Disk;
  read = read;
  write = write;
  guess_mime = toy_environment.guess_mime;
  now = toy_environment.now;
  runtime = toy_environment.runtime;
  timestamp_signature = toy_environment.timestamp_signature;
  active_urls = [];
  submit = toy_environment.submit;
}

abbrev pub toy_host : Host
toy_host = record {
  config_dir = some "d";
  xdg = none;
  home = none;
  join = λ a b. b;
  display = λ a b. b;
  archive_dir = λ a b. b;
  not_found = "missing";
}

abbrev pub toy_system : System toy_crates toy_chrono
toy_system = record {
  env = disk_environment;
  tree = λ disk. record {
    at = λ path. if path == "a.txt" then file_there else nothing;
    glob = λ p. ok [];
  };
  from_utf8 = λ b. ok "receipt";
  parse_json = λ s. ok printed_value;
  parse_toml = λ s. err "no policy";
  to_string_pretty = to_string_pretty;
  now = 4;
  keystore = toy_keystore;
  faults = no_faults;
  host = toy_host;
  fresh = record { ed25519 = 5; hmac = key; salt = []; nonce = [] };
  passphrase_var = none;
  indexes = true;
}

pub toy_files : SystemLaws toy_crates toy_chrono toy_system
unfolding read
toy_files = record {
  read-write = λ d d' p b h.
      (let same : ((p, b) ∷ d) ≡ d' = cc in
        subst (λ x. read x p ≡ ok b) same (rw (eq_refl p) refl));
  read-write_other = λ d d' p q b h k.
      (let same : ((p, b) ∷ d) ≡ d' = cc in subst (λ x. read x q ≡ read d q) same (rw k refl));
  parse-print = λ r text h. (
    "receipt",
    refl,
    ap ok (print_if-ok (Value-discrete (record_to_value r) printed_value) text h),
  );
}
