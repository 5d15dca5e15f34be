-- ===== src/Recovery/Laws/Files.antt =====
-- The files of a checkpoint: what `downloadFile` lets through.
use astra_sync.Prelude.{
  ℕ, pos, ◌≡◌, ◌⊎◌, inl, inr, refl, List, [], ◌∷◌, ◌++◌, length, All, Text, is_blank, Bool, true,
  false, not, ◌&&◌, ◌==◌, some, is_neg, int_lt, int_eq, int_eq_iff, Result, ok, err, Result-cases,
  Bool-cases, arith,
}
use astra_sync.Wal.Crc.{checksum}
use astra_sync.Recovery.Record.{
  CheckpointFile, RecoveryError, Recovery, recovery_failed, file_uri_blank, file_unfetched,
  file_size_differs, file_crc_differs, enter_state, entered,
}
use astra_sync.Recovery.Manager.{Fetch, fetched, restored, fail, download_file, download_files}

-- Whether the restorer is among the calls.
abbrev pub restores : List Fetch → Bool
restores [] = false
restores (restored m ∷ cs) = true
restores (c ∷ cs) = restores cs

pub restores-append :
    (cs ds : List Fetch) → restores cs ≡ false → restores ds ≡ false → restores (cs ++ ds) ≡ false
restores-append [] ds h k = k
restores-append (c ∷ cs) ds h k = ground (arith, restores-append cs ds)

pub enter_state-failed :
    (e : RecoveryError) (now : ℕ) (p : Recovery)
    → int_lt p.recovery_state recovery_failed ≡ true
    → enter_state p recovery_failed (some e) now ≡ (ok tt, entered p recovery_failed (some e) now)
unfolding enter_state
enter_state-failed e now p h = ground arith

pub fail_lem :
    {A : Type 0} (e : RecoveryError) (now : ℕ) (p : Recovery)
    → int_lt p.recovery_state recovery_failed ≡ true
    → fail {A = A} e now p ≡ (err e, entered p recovery_failed (some e) now, [])
unfolding fail enter_state
fail_lem e now p h = ground arith

module _ (get : Text → Result Text (List ℕ)) where
  -- The file is there, and has the size and the checksum that the manifest gives for it.
  pub record FileSound (f : CheckpointFile) : Type 0 where
    pub uri_given : is_blank f.file_uri ≡ false
    pub content : List ℕ
    pub there : get f.file_uri ≡ ok content
    pub size_right : (is_neg f.file_size ≡ true) ⊎ (pos (length content) ≡ f.file_size)
    pub crc_right : (f.file_crc ≡ 0) ⊎ (checksum content ≡ f.file_crc)

  -- A step either leaves the record alone, or fails it and calls no restorer.
  abbrev pub Checks :
      Type 0 → Recovery → ℕ → Result RecoveryError (Unit {0}) × Recovery × List Fetch → Type 0
  Checks Good p now out =
      ((Good × (calls : List Fetch) × (restores calls ≡ false) × (out ≡ (ok tt, p, calls))))
      ⊎ ((e : RecoveryError) × (calls : List Fetch) × (restores calls ≡ false)
          × (out ≡ (err e, entered p recovery_failed (some e) now, calls)))

  pub download_file-Checks :
      (f : CheckpointFile) (now : ℕ) (p : Recovery)
      → int_lt p.recovery_state recovery_failed ≡ true
      → Checks (FileSound f) p now (download_file get f now p)
  unfolding download_file
  download_file-Checks f now p live = elim (Bool-cases (is_blank f.file_uri)) [
    | inl blank ↦ inr (
      file_uri_blank f.file_name,
      [],
      refl,
      rw (blank, fail_lem {A = Unit {0}} (file_uri_blank f.file_name) now p live) refl,
    )
    | inr named ↦ elim (Result-cases (get f.file_uri)) [
      | inr (msg, lost) ↦ inr (
        file_unfetched f.file_name msg,
        fetched f.file_uri ∷ [],
        refl,
        rw (named, lost, enter_state-failed (file_unfetched f.file_name msg) now p live) refl,
      )
      | inl (content, there) ↦
          elim (Bool-cases
            (not (is_neg f.file_size) && not (int_eq (pos (length content)) f.file_size))) [
              | inl wrong ↦ inr (
                file_size_differs f.file_name,
                fetched f.file_uri ∷ [],
                refl,
                rw
                    (
                      named,
                      there,
                      wrong,
                      enter_state-failed (file_size_differs f.file_name) now p live,
                    )
                    refl,
              )
              | inr sized ↦
                  elim (Bool-cases
                    (not (f.file_crc == 0) && not (checksum content == f.file_crc))) [
                      | inl broken ↦ inr (
                        file_crc_differs f.file_name,
                        fetched f.file_uri ∷ [],
                        refl,
                        rw
                            (
                              named,
                              there,
                              sized,
                              broken,
                              enter_state-failed (file_crc_differs f.file_name) now p live,
                            )
                            refl,
                      )
                      | inr whole ↦ inl (
                        record {
                          uri_given = named;
                          content = content;
                          there = there;
                          size_right =
                              ground (arith, int_eq_iff (pos (length content)) f.file_size);
                          crc_right = ground arith;
                        },
                        fetched f.file_uri ∷ [],
                        refl,
                        rw (named, there, sized, whole) refl,
                      )
                    ]
            ]
    ]
  ]

  pub download_files-Checks :
      (fs : List CheckpointFile) (now : ℕ) (p : Recovery)
      → int_lt p.recovery_state recovery_failed ≡ true
      → Checks (All FileSound fs) p now (download_files get fs now p)
  unfolding download_files
  download_files-Checks [] now p live = inl (tt, [], refl, refl)
  download_files-Checks (f ∷ fs) now p live = elim (download_file-Checks f now p live) [
    | inr (e, calls, none_restored, out) ↦ inr (e, calls, none_restored, rw out refl)
    | inl (sound, calls, quiet, out) ↦ elim (download_files-Checks fs now p live) [
      | inr (e, more, quiet', out') ↦
          inr (e, calls ++ more, restores-append calls more quiet quiet', rw (out, out') refl)
      | inl (sounds, more, quiet', out') ↦ inl (
        (sound, sounds),
        calls ++ more,
        restores-append calls more quiet quiet',
        rw (out, out') refl,
      )
    ]
  ]
