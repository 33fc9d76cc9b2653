-- ===== src/Stored/RestartTests.antt =====
-- conf/spec.go: two starts over one configuration file.
use runetale.Common.{
  ℕ, String, ◌≡◌, refl, sym, ap, Bool, true, false, ◌&&◌, none, some, List, [], ◌∷◌, arith, str_eq,
  eq_iff, if◌then◌else◌, lookup, insert, erase, message, ok, Fallible, value, error,
}
use runetale.Stored.Spec.{
  Spec, SpecCalls, after_spec_write, after_spec_marshal, write_spec, after_key, after_spec_read,
  create_spec,
}
use runetale.Stored.FileStore.{found, missing}
use runetale.Stored.Restarted.{SameFields, Rereads, Again, create_spec-Stable}
use runetale.Stored.Files.{and_then, remove_deferred, write_temp, after_temp, atomic_write_file}
use runetale.Stored.Tests.{Disk, temp_name, moved, disk_laws, saved_spec, spec_calls}

-- JSON for the specs that the first start can make.
is_rt0 : List String → Bool
is_rt0 [] = false
is_rt0 (t ∷ []) = str_eq t "rt0"
is_rt0 (t ∷ u ∷ l) = false

unfoldable pub spec_json : Spec → Fallible (List ℕ)
unfolding is_rt0
spec_json s =
    if str_eq s.wg_private_key "new"
      && (str_eq s.tun_name "rt0"
          && (str_eq s.server_host "server"
              && (str_eq s.signal_host "signal" && is_rt0 s.black_list)))
    then value (9 ∷ [])
    else error (message "unsupported")

abbrev fresh_spec : Spec
fresh_spec = let s = saved_spec in record s { wg_private_key = "new" }

abbrev restart_calls : SpecCalls Disk
restart_calls =
    let c = spec_calls in
    record c {
      read_file = λ p w. elim (lookup p w) [ some b ↦ found b | none ↦ missing ];
      marshal_spec = spec_json;
      unmarshal_spec = λ b. fresh_spec;
    }

is_rt0_sound : (l : List String) → is_rt0 l ≡ true → l ≡ "rt0" ∷ []
unfolding is_rt0
is_rt0_sound [] h = absurd (ground (arith, h))
is_rt0_sound (t ∷ []) h = ap (λ x. x ∷ []) ((eq_iff t "rt0").0 h)
is_rt0_sound (t ∷ u ∷ l) h = absurd (ground (arith, h))

spec_json-SameFields :
    (s : Spec) (b : List ℕ)
    → spec_json s ≡ value b
    → SameFields restart_calls disk_laws s fresh_spec
unfolding spec_json
spec_json-SameFields s b e = record {
  key = sym ((eq_iff s.wg_private_key "new").0 (ground (arith, e)));
  tun = sym ((eq_iff s.tun_name "rt0").0 (ground (arith, e)));
  black_list = sym (is_rt0_sound s.black_list (ground (arith, e)));
  server = sym ((eq_iff s.server_host "server").0 (ground (arith, e)));
  signal = sym ((eq_iff s.signal_host "signal").0 (ground (arith, e)));
}

restart_calls-Rereads : Rereads restart_calls disk_laws
restart_calls-Rereads = record {
  content_read = λ p w b e. ground (arith, e);
  mkdir_keeps = λ p w. refl;
  parsed = spec_json-SameFields;
}

abbrev flags : Spec
flags = record {
  wg_private_key = "";
  server_host = "server";
  server_port = 443;
  signal_host = "signal";
  signal_port = 443;
  tun_name = "";
  pre_shared_key = "";
  black_list = [];
  path = "conf";
  is_debug = false;
}

abbrev made_spec : Spec
made_spec = record flags { wg_private_key = "new"; tun_name = "rt0"; black_list = "rt0" ∷ [] }

abbrev after_first : Disk
after_first = ("a.tmp", 9 ∷ []) ∷ ("conf", 9 ∷ []) ∷ []

abbrev after_other : Disk
after_other = ("a.tmp", 9 ∷ []) ∷ ("conf", 9 ∷ []) ∷ ("other", []) ∷ []

first_start : create_spec restart_calls flags [] ≡ (ok made_spec, after_first)
unfolding create_spec after_spec_read after_key write_spec after_spec_marshal after_spec_write
    atomic_write_file after_temp remove_deferred write_temp and_then moved temp_name lookup insert
    erase spec_json
first_start = refl

same_file : lookup "conf" after_other ≡ lookup "conf" after_first
unfolding lookup
same_file = refl

-- The file is missing at the first start, and another file is written before the second.
create_spec-Stable_example :
    (b : List ℕ) × (lookup "conf" after_first ≡ some b)
    × Again restart_calls disk_laws restart_calls-Rereads flags made_spec b
        (create_spec restart_calls flags after_other)
create_spec-Stable_example =
    create_spec-Stable restart_calls disk_laws restart_calls-Rereads flags [] made_spec after_first
      after_other first_start same_file
