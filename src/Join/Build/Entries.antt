-- ===== src/Join/Build/Entries.antt =====
-- The map of the build phase, read by key and stream.
use gxo.Prelude.{
  String, false, ◌&&◌, List, [], ◌∷◌, ◌++◌, Option, none, some, ◌≡◌, refl, ap, sym, ◌∙◌, arith,
  if◌then◌else◌, ◌==◌, eq_iff, append-nil, Bool-cases, inl, inr,
}
use gxo.Prelude.Dict.{Dict, get, get-put}
use gxo.Join.Keys.{Key, key_eq, key_eq_iff}
use gxo.Join.Defs.{Record, BuildEntry}
use gxo.Join.Combine.{or_nil, entries_of}
use gxo.Join.Build.{KeyMap, get_key, put_key, BuildMap, append_entry, add_entry}

pub get_key-put_key {ℓ} :
    {V : Type ℓ} (k j : Key) (v : V) (m : KeyMap V)
    → get_key j (put_key k v m) ≡ (if key_eq k j then some v else get_key j m)
unfolding get_key put_key
get_key-put_key k j v [] = refl
get_key-put_key k j v ((i, w) ∷ m) =
    ground (arith, key_eq_iff k j, key_eq_iff i k, key_eq_iff i j, get_key-put_key k j v m)

-- The entries of a stream in what a key is mapped to.
abbrev pub stream_entries : String → Option (Dict (List BuildEntry)) → List BuildEntry
stream_entries n none = []
stream_entries n (some streams) = entries_of n streams

abbrev pub entries_at : Key → String → BuildMap → List BuildEntry
entries_at k n m = stream_entries n (get_key k m)

abbrev pub unmatched : Record → BuildEntry
unmatched r = record { record' = r; matched = false }

first_entry :
    (name n : String) (e : BuildEntry)
    → or_nil (get n ((name, e ∷ []) ∷ [])) ≡ (if name == n then e ∷ [] else [])
unfolding get
first_entry name n e = elim (Bool-cases (name == n)) [ inl same ↦ rw same | inr other ↦ rw other ]

stream_entries-append :
    (name n : String) (e : BuildEntry) (old : Option (Dict (List BuildEntry)))
    → stream_entries n (some (append_entry name e old))
      ≡ stream_entries n old ++ (if name == n then e ∷ [] else [])
unfolding append_entry entries_of
stream_entries-append name n e none = first_entry name n e
stream_entries-append name n e (some streams) =
    ap or_nil (get-put name n (or_nil (get name streams) ++ e ∷ []) streams)
    ∙ elim (Bool-cases (name == n)) [
      | inl same ↦ rw (same, (eq_iff name n).0 same) refl
      | inr other ↦ rw other (sym (append-nil (or_nil (get n streams))))
    ]

pub entries_at-add :
    (k key : Key) (n name : String) (r : Record) (m : BuildMap)
    → entries_at k n (add_entry key name r m)
      ≡ entries_at k n m ++ (if key_eq key k && name == n then unmatched r ∷ [] else [])
unfolding add_entry
entries_at-add k key n name r m =
    ap (stream_entries n)
      (get_key-put_key key k (append_entry name (unmatched r) (get_key key m)) m)
    ∙ elim (Bool-cases (key_eq key k)) [
      | inl same ↦
          rw (same, (key_eq_iff key k).0 same)
            (stream_entries-append name n (unmatched r) (get_key k m))
      | inr other ↦ rw other (sym (append-nil (stream_entries n (get_key k m))))
    ]
