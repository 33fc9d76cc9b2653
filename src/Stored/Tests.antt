-- ===== src/Stored/Tests.antt =====
-- utils/file.go and store: a world of three files, in which every call succeeds or the rename fails.
use mathlib.Core.Path.{subst}
use runetale.Common.{
  ℕ, zero, suc, String, ◌≡◌, refl, ap, ◌∙◌, ◌≢◌, true, false, not, ◌&&◌, Option, none, some, List,
  [], ◌∷◌, arith, str_eq, eq_iff, if◌then◌else◌, length, All, Dict, lookup, insert, erase,
  lookup-insert, lookup-erase, Error, message, Outcome, ok, err, panic, Fallible, value, error,
}
use runetale.Stored.Files.{
  Files, and_then, chmod_unless_windows, remove_deferred, write_temp, after_temp, atomic_write_file,
}
use runetale.Stored.Atomic.{FileLaws, Done, atomic_write_file-Done}
use runetale.Stored.FileStore.{
  found, missing, StoreCalls, bytes_equal, FileStore, file_mode, err_state_not_found, cached,
  after_marshal, write_state, read_state,
}
use runetale.Stored.Reopened.{bytes_equal_refl, InSync, write_state-InSync}
use runetale.Stored.ClientStore.{client_private_key_state_key, write_private_key}
use runetale.Stored.Spec.{Spec, SpecCalls}
use runetale.Stored.Persistent.{Saved, write_private_key-Saved}
use runetale.Key.RoundTrip.{IsByte}
use runetale.Key.Client.{WgTypes, zero_key}
use runetale.Key.Mem.{byte_lists}

-- The world: the files by their paths. The name of a temporary file is never that of its target.
abbrev pub Disk : Type 0
Disk = Dict (List ℕ)

unfoldable pub temp_name : String → String
temp_name f = if str_eq f "a.tmp" then "b.tmp" else "a.tmp"

pub temp_name-differs : (f : String) → temp_name f ≢ f
unfolding temp_name
temp_name-differs f = ground (arith, eq_iff f "a.tmp", eq_iff "a.tmp" f, eq_iff "b.tmp" "a.tmp")

unfoldable pub moved : Option (List ℕ) → String → String → Disk → Option Error × Disk
moved none tmp f w = (some (message "no such file"), w)
moved (some b) tmp f w = (none, insert f b w)

abbrev pub disk : Files Disk
disk = record {
  temp_file = λ f w. (value (temp_name f), w);
  write = λ tmp l w. (none, insert tmp l w);
  chmod = λ tmp p w. (none, w);
  sync = λ tmp w. (none, w);
  close = λ tmp w. (none, w);
  remove = λ tmp w. (none, erase tmp w);
  rename = λ tmp f w. moved (lookup tmp w) tmp f w;
  is_windows = false;
}

-- The same disk, on which nothing can be renamed.
abbrev stuck : Files Disk
stuck = record disk { rename = λ tmp f w. (some (message "busy"), w) }

pub keeps_others :
    (tmp f : String) (l : List ℕ) (w : Disk) → tmp ≢ f → lookup f (insert tmp l w) ≡ lookup f w
keeps_others tmp f l w h = ground (arith, lookup-insert tmp f l w, eq_iff tmp f, h)

pub removes_others : (tmp f : String) (w : Disk) → tmp ≢ f → lookup f (erase tmp w) ≡ lookup f w
removes_others tmp f w h = ground (arith, lookup-erase tmp f w, eq_iff tmp f, h)

pub holds_written : (f : String) (l : List ℕ) (w : Disk) → lookup f (insert f l w) ≡ some l
holds_written f l w = ground (arith, lookup-insert f f l w, eq_iff f f)

pub moved_content :
    (o : Option (List ℕ)) (tmp f : String) (w : Disk)
    → (moved o tmp f w).0 ≡ none
    → lookup f (moved o tmp f w).1 ≡ o
unfolding moved
moved_content none tmp f w e = cc
moved_content (some b) tmp f w e = holds_written f b w

pub unmoved_content :
    (o : Option (List ℕ)) (tmp f : String) (e : Error) (w : Disk)
    → (moved o tmp f w).0 ≡ some e
    → lookup f (moved o tmp f w).1 ≡ lookup f w
unfolding moved
unmoved_content none tmp f e w h = refl
unmoved_content (some b) tmp f e w h = cc

abbrev pub name_of : String → Fallible String → String
name_of old (value n) = n
name_of old (error e) = old

abbrev pub disk_laws : FileLaws disk
disk_laws = record {
  content = lookup;
  temp_differs = λ f tmp w e q. temp_name-differs f (ap (name_of tmp) e ∙ q);
  temp_keeps = λ f w. refl;
  write_writes = λ tmp l w e. holds_written tmp l w;
  write_keeps = λ tmp f l w. keeps_others tmp f l w;
  chmod_keeps = λ tmp f p w. refl;
  sync_keeps = λ tmp f w. refl;
  close_keeps = λ tmp f w. refl;
  remove_keeps = removes_others;
  rename_moves = λ tmp f w. moved_content (lookup tmp w) tmp f w;
  rename_fails = λ tmp f e w. unmoved_content (lookup tmp w) tmp f e w;
}

abbrev stuck_laws : FileLaws stuck
stuck_laws = record {
  content = lookup;
  temp_differs = λ f tmp w e q. temp_name-differs f (ap (name_of tmp) e ∙ q);
  temp_keeps = λ f w. refl;
  write_writes = λ tmp l w e. holds_written tmp l w;
  write_keeps = λ tmp f l w. keeps_others tmp f l w;
  chmod_keeps = λ tmp f p w. refl;
  sync_keeps = λ tmp f w. refl;
  close_keeps = λ tmp f w. refl;
  remove_keeps = removes_others;
  rename_moves = λ tmp f w e. cc;
  rename_fails = λ tmp f e w h. refl;
}

atomic_write_file-Done_example :
    Done disk disk_laws "f"
      (7 ∷ [])
      (some (1 ∷ []))
      (atomic_write_file disk "f" (7 ∷ []) file_mode (("f", 1 ∷ []) ∷ []))
unfolding lookup
atomic_write_file-Done_example =
    atomic_write_file-Done disk disk_laws "f" (7 ∷ []) file_mode (("f", 1 ∷ []) ∷ [])

-- JSON for maps with at most the client's key.
abbrev pub braces : List ℕ
braces = b'{' ∷ b'}' ∷ []

unfoldable pub to_json : Dict (List ℕ) → Fallible (List ℕ)
to_json [] = value braces
to_json ((k, v) ∷ []) =
    if str_eq k client_private_key_state_key && not (bytes_equal v braces)
    then value v
    else error (message "unsupported")
to_json ((k, v) ∷ e ∷ d) = error (message "unsupported")

unfoldable pub of_json : List ℕ → Fallible (Dict (List ℕ))
of_json b = value (if bytes_equal b braces then [] else (client_private_key_state_key, b) ∷ [])

pub json_inverts : (d : Dict (List ℕ)) (b : List ℕ) → to_json d ≡ value b → of_json b ≡ value d
unfolding to_json of_json
json_inverts [] b e = ground (arith, e, braces_lem)
  where
    braces_lem : bytes_equal braces braces ≡ true
    braces_lem = bytes_equal_refl braces
json_inverts ((k, v) ∷ []) b e = ground (arith, e, eq_iff k client_private_key_state_key)
json_inverts ((k, v) ∷ x ∷ d) b e = cc

abbrev pub calls_on : Files Disk → StoreCalls Disk
calls_on files = record {
  files = files;
  mkdir_all = λ d p w. (none, w);
  dir = λ p. "runetale";
  base = λ p. "runetale";
  stat = λ d w. value (true, 448);
  chmod_path = λ d p w. (none, w);
  read_file = λ p w. missing;
  marshal = to_json;
  unmarshal = of_json;
}

abbrev five : List ℕ
five = 5 ∷ []

abbrev empty_store : FileStore
empty_store = record { path = "f"; cache = [] }

abbrev new_disk : Disk
new_disk = ("f", braces) ∷ []

new_disk-InSync :
    (files : Files Disk) (laws : FileLaws files)
    → laws.content "f" new_disk ≡ some braces
    → InSync (calls_on files) laws (empty_store, new_disk)
unfolding of_json bytes_equal
new_disk-InSync files laws e = (braces, e, refl)

write_state-InSync_example :
    let (e, s) =
      write_state (calls_on disk) client_private_key_state_key five (empty_store, new_disk) in
    (e ≡ none
      → InSync (calls_on disk) disk_laws s
        × (five ≢ [] → read_state (calls_on disk) client_private_key_state_key s.0 ≡ value five))
    × (e ≢ none → lookup "f" s.1 ≡ lookup "f" new_disk)
unfolding lookup
write_state-InSync_example =
    write_state-InSync (calls_on disk) disk_laws client_private_key_state_key five empty_store
      new_disk json_inverts (new_disk-InSync disk disk_laws refl)

stuck_run :
    (write_state (calls_on stuck) client_private_key_state_key five (empty_store, new_disk)).0
    ≡ some (message "busy")
unfolding write_state after_marshal to_json cached atomic_write_file after_temp write_temp and_then
    chmod_unless_windows remove_deferred temp_name bytes_equal lookup insert erase
stuck_run = refl

-- A generator that gives 32 bytes of the value 9.
abbrev pub nines : ℕ → List ℕ
nines zero = []
nines (suc n) = 9 ∷ nines n

nines_small : (n : ℕ) → All IsByte (nines n)
nines_small zero = tt
nines_small (suc n) = (omega arith, nines_small n)

abbrev pub wg_types : WgTypes Disk
wg_types = record {
  generate_private_key = λ w. (ok (nines 32), w);
  generate_key = λ w. (ok (nines 32), w);
  public_key = λ k. k;
  to_string = λ k. "key";
  parse_key = λ s. ok (nines 32);
}

pub makes_nines :
    (w : Disk) (l : List ℕ)
    → (wg_types.generate_private_key w).0 ≡ ok l
    → All IsByte l × (length l ≡ 32)
makes_nines w l e =
    subst (λ m. All IsByte m × (length m ≡ 32)) (ap (key_of l) e) (nines_small 32, refl)
  where
    key_of : List ℕ → Outcome (List ℕ) → List ℕ
    key_of old (ok k) = k
    key_of old (err x) = old
    key_of old panic = old

nothing_saved :
    read_state (calls_on disk) client_private_key_state_key empty_store ≡ error err_state_not_found
unfolding read_state lookup
nothing_saved = refl

write_private_key-Saved_example : Saved byte_lists (calls_on disk) wg_types disk_laws (
    write_private_key byte_lists
      (calls_on disk)
      wg_types
      (record { private_key = zero_key }, empty_store, new_disk))
unfolding lookup
write_private_key-Saved_example =
    write_private_key-Saved byte_lists (calls_on disk) wg_types disk_laws
      (record { private_key = zero_key }) empty_store new_disk json_inverts makes_nines
      (new_disk-InSync disk disk_laws refl) nothing_saved

abbrev pub saved_spec : Spec
saved_spec = record {
  wg_private_key = "secret";
  server_host = "server";
  server_port = 443;
  signal_host = "signal";
  signal_port = 443;
  tun_name = "rt0";
  pre_shared_key = "shared";
  black_list = "rt0" ∷ [];
  path = "";
  is_debug = false;
}

abbrev pub spec_calls : SpecCalls Disk
spec_calls = record {
  files = disk;
  read_file = λ p w. found (8 ∷ []);
  mkdir_for = λ p w. w;
  marshal_spec = λ s. value (9 ∷ []);
  unmarshal_spec = λ b. saved_spec;
  tun_device = "rt0";
  new_generate_key = λ w. (ok "new", w);
  without = λ t s. s;
  decimal = λ n. "443";
}
