-- ===== src/Custody/Sealed/Files.antt =====
-- What `writeBundleLocked` does to the files (internal/custody/sealed_store.go).
use workflow_plugin_signal.Base.{
  ◌≡◌, ◌≢◌, refl, ◌⊎◌, inl, inr, Bool, true, false, Option, none, some, arith, if◌then◌else◌, Str,
  str_eq, str_eq_iff, Dict, lookup, insert, remove, lookup-insert, lookup-remove, Bool-cases, ok,
  err,
}
use workflow_plugin_signal.Custody.Sealed.{
  Bytes, Error, Crypto, System, Write, whole, stopped, replace_file, clean_up, write_file,
}

module _ (c : Crypto) where
  -- A name that no temporary file for this path has.
  abbrev pub NotTemp : Str → Str → Type 0
  NotTemp path k = (suffix : Str) → c.temp_for path suffix ≢ k

  apart_false : (a b : Str) → a ≢ b → str_eq a b ≡ false
  apart_false a b n = ground (arith, str_eq_iff a b)

  lookup-clean_up :
      (fails : Bool) (tmp k : Str) (files : Dict Bytes)
      → tmp ≢ k
      → lookup k (clean_up c fails tmp files) ≡ lookup k files
  unfolding clean_up
  lookup-clean_up true tmp k files n = refl
  lookup-clean_up false tmp k files n = rw (lookup-remove tmp k files, apart_false tmp k n) refl

  lookup-other :
      (tmp k : Str) (x : Bytes) (files : Dict Bytes)
      → tmp ≢ k
      → lookup k (insert tmp x files) ≡ lookup k files
  lookup-other tmp k x files n = rw (lookup-insert tmp k x files, apart_false tmp k n) refl

  replaced :
      (tmp path k : Str) (raw : Bytes) (write : Write) (rename_fails : Bool) (files : Dict Bytes)
      → tmp ≢ k
      → (replace_file c tmp path raw write rename_fails files).0 ≡ ok tt
      → lookup k (replace_file c tmp path raw write rename_fails files).1
        ≡ (if str_eq path k then some raw else lookup k files)
  unfolding replace_file
  replaced tmp path k raw (stopped part) rename_fails files n e = absurd (ground arith)
  replaced tmp path k raw whole true files n e = absurd (ground arith)
  replaced tmp path k raw whole false files n e =
      rw
        (
          lookup-insert path k raw (remove tmp (insert tmp raw files)),
          lookup-remove tmp k (insert tmp raw files),
          apart_false tmp k n,
          lookup-other tmp k raw files n,
        )
        refl

  kept :
      (tmp path k : Str) (raw : Bytes) (write : Write) (rename_fails : Bool) (files : Dict Bytes)
      {e : Error}
      → tmp ≢ k
      → (replace_file c tmp path raw write rename_fails files).0 ≡ err e
      → lookup k (replace_file c tmp path raw write rename_fails files).1 ≡ lookup k files
  unfolding replace_file
  kept tmp path k raw (stopped part) rename_fails files n e = lookup-other tmp k part files n
  kept tmp path k raw whole true files n e = lookup-other tmp k raw files n
  kept tmp path k raw whole false files n e = absurd (ground arith)

  -- After a write that succeeded the path holds the new bytes, and every other name that is not
  -- temporary what it held.
  pub lookup-write_file :
      (temp : Option Str) (sys : System) (path k : Str) (raw : Bytes) (files : Dict Bytes)
      → NotTemp path k
      → (write_file c temp sys path raw files).0 ≡ ok tt
      → lookup k (write_file c temp sys path raw files).1
        ≡ (if str_eq path k then some raw else lookup k files)
  unfolding write_file
  lookup-write_file none sys path k raw files n e = absurd (ground arith)
  lookup-write_file (some suffix) sys path k raw files n e =
      rw (lookup-clean_up sys.remove_fails (c.temp_for path suffix) k _ (n suffix))
        (replaced (c.temp_for path suffix) path k raw sys.write sys.rename_fails files (n suffix) e)

  -- A write that failed leaves every name that is not temporary what it held.
  pub write_file_kept :
      (temp : Option Str) (sys : System) (path k : Str) (raw : Bytes) (files : Dict Bytes)
      {e : Error}
      → NotTemp path k
      → (write_file c temp sys path raw files).0 ≡ err e
      → lookup k (write_file c temp sys path raw files).1 ≡ lookup k files
  unfolding write_file
  write_file_kept none sys path k raw files n e = refl
  write_file_kept (some suffix) sys path k raw files n e =
      rw (lookup-clean_up sys.remove_fails (c.temp_for path suffix) k _ (n suffix))
        (kept (c.temp_for path suffix) path k raw sys.write sys.rename_fails files (n suffix) e)

  removed_all :
      (fails : Bool) (tmp path : Str) (raw : Bytes) (write : Write) (rename_fails : Bool)
      (files : Dict Bytes) {e : Error}
      → lookup tmp files ≡ none
      → (replace_file c tmp path raw write rename_fails files).0 ≡ err e
      → (fails ≡ true)
        ⊎ ((k : Str)
            → lookup k
                (clean_up c fails tmp (replace_file c tmp path raw write rename_fails files).1)
              ≡ lookup k files)
  unfolding clean_up
  removed_all true tmp path raw write rename_fails files fresh e = inl refl
  removed_all false tmp path raw write rename_fails files fresh e = inr (λ k.
      let rest = (replace_file c tmp path raw write rename_fails files).1 in
      elim (Bool-cases (str_eq tmp k)) [
        | inl same ↦ rw (lookup-remove tmp k rest, same) (ground (arith, str_eq_iff tmp k))
        | inr other ↦
            rw (lookup-remove tmp k rest, other)
              (kept tmp path k raw write rename_fails files (λ x. ground (arith, str_eq_iff tmp k))
                e)
      ])

  -- A write that failed, with a temporary name that was not taken, leaves no trace, unless the
  -- temporary file could not be removed.
  pub write_file_traceless :
      (temp : Option Str) (sys : System) (path : Str) (raw : Bytes) (files : Dict Bytes) {e : Error}
      → ((suffix : Str) → temp ≡ some suffix → lookup (c.temp_for path suffix) files ≡ none)
      → (write_file c temp sys path raw files).0 ≡ err e
      → (sys.remove_fails ≡ true)
        ⊎ ((k : Str) → lookup k (write_file c temp sys path raw files).1 ≡ lookup k files)
  unfolding write_file
  write_file_traceless none sys path raw files fresh e = inr (λ k. refl)
  write_file_traceless (some suffix) sys path raw files fresh e =
      removed_all sys.remove_fails (c.temp_for path suffix) path raw sys.write sys.rename_fails
        files (fresh suffix refl) e
