-- ===== src/Envelope/Store/Persist.antt =====
-- What `persistLocked` leaves on disk, and what `load` makes of it after a restart.
use workflow_plugin_signal.Base.{
  ℕ, ◌≡◌, refl, false, none, some, List, [], ◌∷◌, ◌++◌, arith, Str, lit, str_eq, str_eq_iff,
  str_eq_refl, lookup, lookup-insert, Result, ok, err, ◌>>◌, inl, inr, length, ◌+◌, Bool-cases,
  Option-cases,
}
use workflow_plugin_signal.Envelope.{
  EnvelopeStore, EnvelopeRecord, local_file, Error, Host, JsonLaws, Write, complete, partial,
  System, Files,
}
use workflow_plugin_signal.Envelope.Store.{
  temp_path, write_temp, write_error, replace_file, persist_locked, finish, load, init_store,
  clone_envelope_record,
}

length-append : (s t : Str) → length (s ++ t) ≡ length s + length t
length-append [] t = ground arith
length-append (c ∷ s) t = ground (arith, length-append s t)

temp_path-ne : (path : Str) → str_eq (temp_path path) path ≡ false
unfolding temp_path
temp_path-ne path =
    ground (arith, str_eq_iff (path ++ lit ".tmp") path, length-append path (lit ".tmp"))

lookup-write_temp :
    (files : Files) (path : Str) (raw : List ℕ) (write : Write)
    → lookup path (write_temp files path raw write) ≡ lookup path files
unfolding write_temp
lookup-write_temp files path raw complete = simp (lookup-insert, temp_path-ne)
lookup-write_temp files path raw (partial none) = refl
lookup-write_temp files path raw (partial (some part)) = simp (lookup-insert, temp_path-ne)

-- The file at the path holds the new bytes if the call succeeds, and what it held if it fails.
abbrev Replaced : Files → Str → List ℕ → Result Error (Unit {0}) × Files → Type 0
Replaced files path raw (ok _, files') = lookup path files' ≡ some raw
Replaced files path raw (err _, files') = lookup path files' ≡ lookup path files

replace_file-Replaced :
    (sys : System) (files : Files) (path : Str) (raw : List ℕ)
    → Replaced files path raw (replace_file sys files path raw)
unfolding replace_file
replace_file-Replaced sys files path raw = elim (Bool-cases sys.mkdir_fails) [
  | inl no_dir ↦ rw no_dir
  | inr dir ↦ elim (Bool-cases (write_error sys.write)) [
    | inl bad ↦ rw (dir, bad) (lookup-write_temp files path raw sys.write)
    | inr good ↦ elim (Bool-cases sys.rename_fails) [
      | inl kept ↦ rw (dir, good, kept) (lookup-write_temp files path raw sys.write)
      | inr moved ↦ rw (dir, good, moved) (simp (lookup-insert, str_eq_refl))
    ]
  ]
]

-- The same of `persistLocked`, whose new bytes are the encoding of the state.
abbrev pub Saved : Host → EnvelopeStore → Files → Result Error (Unit {0}) × Files → Type 0
Saved h s files (ok _, files') =
    (raw : List ℕ) × (h.encode s.state ≡ some raw)
    × (lookup s.config.storage_path files' ≡ some raw)
Saved h s files (err _, files') =
    lookup s.config.storage_path files' ≡ lookup s.config.storage_path files

Replaced-Saved :
    (h : Host) (s : EnvelopeStore) (files : Files) (raw : List ℕ)
    (done : Result Error (Unit {0}) × Files)
    → h.encode s.state ≡ some raw
    → Replaced files s.config.storage_path raw done
    → Saved h s files done
Replaced-Saved h s files raw (ok _, files') e f = (raw, e, f)
Replaced-Saved h s files raw (err _, files') e f = f

-- Saving to a local file is atomic, whatever fails: on success the file at the storage path holds
-- the encoding of the state, and on an error it holds what it held before.
pub persist_locked_atomic :
    (h : Host) (sys : System) (s : EnvelopeStore) (files : Files)
    → s.config.backend ≡ local_file
    → Saved h s files (persist_locked h sys s files)
unfolding persist_locked
persist_locked_atomic h sys s files b =
    let file_backed = (str_eq_iff s.config.backend local_file).1 b in
    elim (Option-cases (h.encode s.state)) [
      | inl bad ↦ rw (file_backed, bad) refl
      | inr (raw, e) ↦
          rw (file_backed, e, persist_locked)
            (Replaced-Saved h s files raw _ e
              (replace_file-Replaced sys files s.config.storage_path raw))
    ]

abbrev IsOk : {A : Type 0} → Result Error A → Type 0
IsOk {A} r = (a : A) × (r ≡ ok a)

Saved-ok :
    (h : Host) (s : EnvelopeStore) (files : Files) (done : Result Error (Unit {0}) × Files)
    (r : EnvelopeRecord) {r' : EnvelopeRecord}
    → Saved h s files done
    → (done.0 >> ok r) ≡ ok r'
    → (raw : List ℕ) × (h.encode s.state ≡ some raw)
      × (lookup s.config.storage_path done.1 ≡ some raw)
Saved-ok h s files (ok _, files') r saved e = saved
Saved-ok h s files (err _, files') r saved e = cc

-- What `init_store` makes of a file that holds the encoding of a state.
load_saved :
    (h : Host) (s : EnvelopeStore) (files : Files) (raw : List ℕ)
    → JsonLaws h s.state
    → s.config.backend ≡ local_file
    → s.state.version ≡ 1
    → h.encode s.state ≡ some raw
    → lookup s.config.storage_path files ≡ some raw
    → init_store h false files s.config ≡ ok s
unfolding init_store load
load_saved h s files raw laws b v e f =
    rw ((str_eq_iff s.config.backend local_file).1 b, f, laws.decode-encode raw e) (ground arith)

pub finish-init_store :
    (h : Host) (sys : System) (s : EnvelopeStore) (r : EnvelopeRecord) (files : Files)
    {r' : EnvelopeRecord}
    → JsonLaws h s.state
    → s.config.backend ≡ local_file
    → s.state.version ≡ 1
    → (finish h sys s r files).0 ≡ ok r'
    → init_store h false (finish h sys s r files).1.files s.config ≡ ok s
unfolding finish
finish-init_store h sys s r files laws b v e =
    let (raw, enc, saved) =
      Saved-ok h s files (persist_locked h sys s files) (clone_envelope_record r)
        (persist_locked_atomic h sys s files b) e in
    load_saved h s _ raw laws b v enc saved
