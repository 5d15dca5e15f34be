-- ===== src/Recovery/Laws/Outcomes.antt =====
-- How `Recover` can end.
use astra_sync.Prelude.{
  ℕ, ℤ, ◌≡◌, ◌⊎◌, inl, inr, refl, sym, ap, subst, ◌∙◌, List, [], ◌∷◌, ◌++◌, All, Text, true, false,
  Option, none, some, is_positive, int_lt, Result, ok, err, Result-cases, Bool-cases, Option-cases,
}
use astra_sync.Prelude.Exec.{after_calls}
use astra_sync.Recovery.Record.{
  checkpoint_validated, checkpoint_invalid, restore_failed, latest_unreadable, checkpoint_not_found,
  epoch_mismatch, other_job, sequence_mismatch, Manifest, RecoveryError, manifest_unfetched,
  manifest_unparsed, manifest_differs, Recovery, recovery_failed, recovery_complete,
  checkpoint_located, restoring, files_downloading, entered, new_recovery,
}
use astra_sync.Recovery.Manager.{
  Fetch, fetched, validated, refine, wrong_job, recover_with, restore_chosen, differs_from,
}
use astra_sync.Recovery.Laws.Files.{
  restores, restores-append, enter_state-failed, FileSound, download_files-Checks,
}

-- What is left of a recovery that was given up.
abbrev pub GivenUp : ℕ → Result RecoveryError (Unit {0}) × Recovery × List Fetch → Type 0
GivenUp now out =
    (e : RecoveryError) × (out.0 ≡ err e)
    × (out.1.recovery_state ≡ recovery_failed)
    × (out.1.recovery_error ≡ some e)
    × (out.1.recovery_completed ≡ some now)

module _ (latest : Result Text (Option Manifest)) (get : Text → Result Text (List ℕ))
    (parser : Option (List ℕ → Result Text (Option Manifest)))
    (validate restore : Manifest → Option Text) (job : Text) (epoch : ℤ) where
  -- The manifest that is restored: the located one, or the one that its object holds, which must be
  -- about the same checkpoint.
  pub data Selected (m : Manifest) : Manifest → Type 0 where
    unparsed : parser ≡ none → Selected m m
    parsed :
        (parse : List ℕ → Result Text (Option Manifest)) (content : List ℕ) (chosen : Manifest)
        → parser ≡ some parse
        → get m.manifest_uri ≡ ok content
        → parse content ≡ ok (some chosen)
        → differs_from m job chosen ≡ false
        → Selected m chosen

  -- What must hold before the restorer is called.
  pub record IsRestorable (m chosen : Manifest) : Type 0 where
    pub is_latest : latest ≡ ok (some m)
    pub not_later : int_lt epoch m.manifest_epoch ≡ false
    pub of_job : wrong_job job m ≡ false
    pub numbered : is_positive m.manifest_sequence ≡ true
    pub selected : Selected m chosen
    pub valid : validate chosen ≡ none
    pub files_sound : All (FileSound get) chosen.files

  -- The three ways for a recovery to end, once its components are there.
  pub data Recovers (now : ℕ) (out : Result RecoveryError (Unit {0}) × Recovery × List Fetch)
      : Type 0 where
    completes :
        (m chosen : Manifest)
        → IsRestorable m chosen
        → restore chosen ≡ none
        → out.0 ≡ ok tt
        → out.1.recovery_state ≡ recovery_complete
        → out.1.checkpoint ≡ some chosen
        → out.1.recovery_completed ≡ some now
        → Recovers now out
    cannot_restore :
        (m chosen : Manifest) (msg : Text)
        → IsRestorable m chosen
        → restore chosen ≡ some msg
        → GivenUp now out
        → Recovers now out
    stops : restores out.2 ≡ false → GivenUp now out → Recovers now out

  abbrev Refines :
      Manifest → ℕ → Recovery → Result RecoveryError Manifest × Recovery × List Fetch → Type 0
  Refines m now p out =
      ((chosen : Manifest) × (calls : List Fetch) × Selected m chosen
        × (restores calls ≡ false)
        × (out ≡ (ok chosen, record p { checkpoint = some chosen }, calls)))
      ⊎ ((e : RecoveryError) × (calls : List Fetch) × (restores calls ≡ false)
          × (out ≡ (err e, entered p recovery_failed (some e) now, calls)))

  refine-Refines :
      (m : Manifest) (now : ℕ) (q : Recovery)
      → int_lt q.recovery_state recovery_failed ≡ true
      → let p = record q { checkpoint = some m } in Refines m now p (refine parser get job m now p)
  unfolding refine
  refine-Refines m now q live =
      let p = record q { checkpoint = some m } in
      elim (Option-cases parser) [
        | inl absent ↦ inl (m, [], unparsed absent, refl, rw absent refl)
        | inr (parse, there) ↦ elim (Result-cases (get m.manifest_uri)) [
          | inr (msg, lost) ↦ inr (
            manifest_unfetched msg,
            fetched m.manifest_uri ∷ [],
            refl,
            rw (there, lost, enter_state-failed (manifest_unfetched msg) now p live) refl,
          )
          | inl (content, found) ↦ elim (Result-cases (parse content)) [
            | inr (msg, broken) ↦ inr (
              manifest_unparsed msg,
              fetched m.manifest_uri ∷ [],
              refl,
              rw (there, found, broken, enter_state-failed (manifest_unparsed msg) now p live) refl,
            )
            | inl (answer, read) ↦ elim (Option-cases answer) [
              | inl nothing ↦ inr (
                manifest_differs,
                fetched m.manifest_uri ∷ [],
                refl,
                rw (there, found, read, nothing, enter_state-failed manifest_differs now p live)
                    refl,
              )
              | inr (chosen, given) ↦ elim (Bool-cases (differs_from m job chosen)) [
                | inl other ↦ inr (
                  manifest_differs,
                  fetched m.manifest_uri ∷ [],
                  refl,
                  rw
                      (
                        there,
                        found,
                        read,
                        given,
                        other,
                        enter_state-failed manifest_differs now p live,
                      )
                      refl,
                )
                | inr same ↦ inl (
                  chosen,
                  fetched m.manifest_uri ∷ [],
                  parsed parse content chosen there found (read ∙ ap ok given) same,
                  refl,
                  rw (there, found, read, given, same) refl,
                )
              ]
            ]
          ]
        ]
      ]

  stop_lem :
      (now : ℕ) (e : RecoveryError) (p : Recovery) (calls : List Fetch)
      (out : Result RecoveryError (Unit {0}) × Recovery × List Fetch)
      → restores calls ≡ false
      → out ≡ (err e, entered p recovery_failed (some e) now, calls)
      → Recovers now out
  stop_lem now e p calls out quiet h = rw h (stops quiet (e, refl, refl, refl, refl))

  -- From the chosen manifest on; `calls` are those made before.
  restore_chosen-Recovers :
      (m chosen : Manifest) (now : ℕ) (q : Recovery) (calls : List Fetch)
      → (valid : validate chosen ≡ none → All (FileSound get) chosen.files → IsRestorable m chosen)
      → restores calls ≡ false
      → let p = record q { recovery_state = checkpoint_located; checkpoint = some chosen } in
        Recovers now (after_calls calls (restore_chosen get validate restore chosen now p))
  unfolding restore_chosen
  restore_chosen-Recovers m chosen now q calls good quiet =
      let p = record q { recovery_state = checkpoint_located; checkpoint = some chosen } in
      let p₂ = record p { recovery_state = checkpoint_validated } in
      let p₃ = record p { recovery_state = files_downloading } in
      let p₅ = record p { recovery_state = restoring } in
      elim (Option-cases (validate chosen)) [
        | inr (msg, invalid) ↦
            stop_lem now (checkpoint_invalid msg) p₂ (calls ++ validated chosen ∷ []) _
              (restores-append calls (validated chosen ∷ []) quiet refl) (rw invalid refl)
        | inl valid ↦ elim (download_files-Checks get chosen.files now p₃ refl) [
          | inr (e, more, quiet', out) ↦
              stop_lem now e p₃ (calls ++ validated chosen ∷ more) _
                (restores-append calls (validated chosen ∷ more) quiet quiet')
                (rw (valid, out) refl)
          | inl (sound, more, quiet', out) ↦ elim (Option-cases (restore chosen)) [
            | inr (msg, broken) ↦
                rw (valid, out, broken)
                  (cannot_restore m chosen msg (good valid sound) broken
                    (restore_failed msg, refl, refl, refl, refl))
            | inl fine ↦
                rw (valid, out, fine)
                  (completes m chosen (good valid sound) fine refl refl refl refl)
          ]
        ]
      ]

  pub recover_with-Recovers :
      (now : ℕ)
      → Recovers now (
          recover_with latest get parser validate restore job epoch now
            (new_recovery job epoch now))
  unfolding recover_with new_recovery
  recover_with-Recovers now =
      let r = new_recovery job epoch now in
      let p₁ = record r { recovery_state = checkpoint_located } in
      elim (Result-cases latest) [
        | inr (msg, unread) ↦ stop_lem now (latest_unreadable msg) p₁ [] _ refl (rw unread refl)
        | inl (answer, read) ↦ elim (Option-cases answer) [
          | inl nothing ↦ stop_lem now checkpoint_not_found p₁ [] _ refl (rw (read, nothing) refl)
          | inr (m, given) ↦
              let p = record p₁ { checkpoint = some m } in
              elim (Bool-cases (int_lt epoch m.manifest_epoch)) [
                | inl later ↦
                    stop_lem now (epoch_mismatch m.manifest_epoch epoch) p [] _ refl
                      (rw (read, given, later) refl)
                | inr early ↦ elim (Bool-cases (wrong_job job m)) [
                  | inl wrong ↦
                      stop_lem now other_job p [] _ refl (rw (read, given, early, wrong) refl)
                  | inr mine ↦ elim (Bool-cases (is_positive m.manifest_sequence)) [
                    | inr low ↦
                        stop_lem now sequence_mismatch p [] _ refl
                          (rw (read, given, early, mine, low) refl)
                    | inl high ↦ elim (refine-Refines m now p₁ refl) [
                      | inr (e, calls, quiet, out) ↦
                          stop_lem now e p calls _ quiet
                            (rw (read, given, early, mine, high, out) refl)
                      | inl (chosen, calls, selected, quiet, out) ↦
                          let reached : recover_with latest get parser validate restore job epoch
                                now r
                              ≡ after_calls calls (
                                  restore_chosen get validate restore chosen now
                                    (record p₁ { checkpoint = some chosen })) =
                            rw (read, given, early, mine, high, out) refl in
                          subst (λ out. Recovers now out) (sym reached)
                            (restore_chosen-Recovers m chosen now r calls
                              (λ valid sound. record {
                                is_latest = read ∙ ap ok given;
                                not_later = early;
                                of_job = mine;
                                numbered = high;
                                selected = selected;
                                valid = valid;
                                files_sound = sound;
                              })
                              quiet)
                    ]
                  ]
                ]
              ]
        ]
      ]
