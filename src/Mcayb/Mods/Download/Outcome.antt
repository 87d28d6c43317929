-- ===== src/Mcayb/Mods/Download/Outcome.antt =====
-- mcayb/src/process_mods.rs: what is left of a download.
use mind_craft.Base.{
  ℕ, Text, text_eq_refl, Bool, true, false, not, ◌&&◌, Bool-cases, some, List, [], ◌∷◌, ◌≡◌, refl,
  sym, subst, ap, ◌⊎◌, inl, inr, arith, any, Result, ok, err, panic, diverge, Error,
}
use mind_craft.Yapper.Types.{ModInfo}
use mind_craft.Mcayb.Mods.{IdleMod, ModInstalling, waiting, processed, failed_mod, Slots}
use mind_craft.Mcayb.Mods.Download.{
  Store, Net, has_file, remove_file, temp_path, create_temp, after_parse, after_copy, after_create,
  after_request, mod_thread_inner, report, mod_thread,
}

-- What the bot relies on: a slot that is allocated holds its item, and one that holds an item can be
-- written.
pub record IsLawful {S A : Type 0} (slots : Slots S A) : Type 0 where
  pub get-allocate :
      (a : A) (s : S) → slots.get (slots.allocate a s).0 (slots.allocate a s).1 ≡ some a
  pub get-set :
      (i : ℕ) (a old : A) (s : S)
      → slots.get i s ≡ some old
      → slots.get i (slots.set i a s) ≡ some a

remove_file_absent :
    (path : Text) (files : List Text) → has_file path files ≡ false → remove_file path files ≡ files
remove_file_absent path [] h = refl
remove_file_absent path (f ∷ files) h = ground (arith, h, remove_file_absent path files)

remove_file_fresh :
    (path : Text) (files : List Text)
    → has_file path files ≡ false
    → remove_file path (path ∷ files) ≡ files
remove_file_fresh path files h = rw (text_eq_refl path) (remove_file_absent path files h)

-- A result that is a value or an error.
abbrev pub returns : {A : Type 0} → Result A → Bool
returns (ok _) = true
returns (err _) = true
returns panic = false
returns diverge = false

err-same : {A : Type 0} (a b : Error) → ◌≡◌ {A = Result A} (err a) (err b) → a ≡ b
err-same a b h = ground (arith, h)

module _ {V S : Type 0} (slots : Slots S (ModInstalling V)) (net : Net V) (m : IdleMod)
    (files : List Text) where
  -- The mod was read from a new file, which is still there.
  pub record IsRead (slot : ℕ) (after : Store S) : Type 0 where
    pub path : Text
    pub info : ModInfo V
    pub fresh : has_file path files ≡ false
    pub read : net.parse_mod path ≡ ok info
    pub item :
        slots.get slot after.mods
        ≡ some
            (processed (record { server = m.server; info = record info { filename = m.att_name } }))
    pub kept : after.files ≡ path ∷ files

  -- The step that failed, with its error: the request, the copy of the data, or the parser on a new file.
  abbrev pub IsCause : Error → Type 0
  IsCause error =
      ((net.reached ≡ false) × (error ≡ "URL get request failed"))
      ⊎ (((net.received ≡ false) × (error ≡ "Error downloading data"))
          ⊎ ((path : Text) × (has_file path files ≡ false) × (net.parse_mod path ≡ err error)))

  -- The mod could not be read, which the slot tells with the error, and its file is gone.
  pub record IsFailed (slot : ℕ) (after : Store S) : Type 0 where
    pub error : Error
    pub cause : IsCause error
    pub item :
        slots.get slot after.mods
        ≡ some (
            failed_mod
              (record { server = m.server; att_name = m.att_name; err = net.show_error error }))
    pub removed : after.files ≡ files

  -- The same before the result is reported.
  record IsStopped (slot : ℕ) (r : Result (Unit {0})) (after : Store S) : Type 0 where
    error : Error
    cause : IsCause error
    stopped : r ≡ err error
    held : ModInstalling V
    holds : slots.get slot after.mods ≡ some held
    removed : after.files ≡ files

  create_temp-fresh :
      (draws : List (ℕ × Bool)) (path : Text)
      → create_temp slots net draws files ≡ some path
      → has_file path files ≡ false
  unfolding create_temp
  create_temp-fresh [] path h = absurd (ground arith)
  create_temp-fresh ((num, allowed) ∷ draws) path h =
      ground (arith, h, create_temp-fresh draws path)

  create_temp-some :
      (draws : List (ℕ × Bool))
      → any (λ d. d.1 && not (has_file (temp_path slots net d.0) files)) draws ≡ true
      → (path : Text) × (create_temp slots net draws files ≡ some path)
  unfolding create_temp
  create_temp-some [] h = absurd (ground arith)
  create_temp-some ((num, allowed) ∷ draws) h =
      elim (Bool-cases (allowed && not (has_file (temp_path slots net num) files))) [
        | inl e ↦ (temp_path slots net num, ground (arith, e))
        | inr e ↦
            let (path, f) = create_temp-some draws (ground (arith, h, e)) in
            (path, ground (arith, e, f))
      ]

  module _ (law : IsLawful slots) (slot : ℕ) where
    after_parse-outcome :
        (path : Text) (parsed : Result (ModInfo V)) (s : Store S) (held : ModInstalling V)
        → has_file path files ≡ false
        → net.parse_mod path ≡ parsed
        → s.files ≡ path ∷ files
        → slots.get slot s.mods ≡ some held
        → returns parsed ≡ true
        → let (r, after) = after_parse slots net slot m path parsed s in
          ((r ≡ ok tt) × IsRead slot after) ⊎ IsStopped slot r after
    unfolding after_parse
    after_parse-outcome path (ok info) s held fresh e f g t = inl (
      refl,
      record {
        path = path;
        info = info;
        fresh = fresh;
        read = e;
        item = law.get-set slot _ held s.mods g;
        kept = f;
      },
    )
    after_parse-outcome path (err x) s held fresh e f g t = inr (record {
      error = x;
      cause = inr (inr (path, fresh, e));
      stopped = refl;
      held = held;
      holds = g;
      removed = rw f (remove_file_fresh path files fresh);
    })
    after_parse-outcome path panic s held fresh e f g t = absurd (ground arith)
    after_parse-outcome path diverge s held fresh e f g t = absurd (ground arith)

    after_copy-outcome :
        (path : Text) (received : Bool) (s : Store S) (held : ModInstalling V)
        → has_file path files ≡ false
        → s.files ≡ path ∷ files
        → slots.get slot s.mods ≡ some held
        → returns (net.parse_mod path) ≡ true
        → net.received ≡ received
        → let (r, after) = after_copy slots net slot m path received s in
          ((r ≡ ok tt) × IsRead slot after) ⊎ IsStopped slot r after
    unfolding after_copy
    after_copy-outcome path true s held fresh f g t n =
        after_parse-outcome path (net.parse_mod path) _ _ fresh refl f
          (law.get-set slot _ held s.mods g) t
    after_copy-outcome path false s held fresh f g t n = inr (record {
      error = "Error downloading data";
      cause = inr (inl (n, refl));
      stopped = refl;
      held = held;
      holds = g;
      removed = rw f (remove_file_fresh path files fresh);
    })

    after_request-outcome :
        (reached : Bool) (s : Store S) (held : ModInstalling V)
        → s.files ≡ files
        → slots.get slot s.mods ≡ some held
        → ((path : Text) → returns (net.parse_mod path) ≡ true)
        → any (λ d. d.1 && not (has_file (temp_path slots net d.0) files)) net.draws ≡ true
        → net.reached ≡ reached
        → let (r, after) = after_request slots net slot m reached s in
          ((r ≡ ok tt) × IsRead slot after) ⊎ IsStopped slot r after
    unfolding after_request
    after_request-outcome false s held f g t free n = inr (record {
      error = "URL get request failed";
      cause = inl (n, refl);
      stopped = refl;
      held = held;
      holds = g;
      removed = f;
    })
    after_request-outcome true s held f g t free n =
        let (path, e) = create_temp-some net.draws free in
        let e' : create_temp slots net net.draws s.files ≡ some path = rw f e in
        let fresh = create_temp-fresh net.draws path e in
        subst
          (λ o.
            let (r, after) = after_create slots net slot m o s in
            ((r ≡ ok tt) × IsRead slot after) ⊎ IsStopped slot r after)
          (sym e')
          (unfold after_create in
            after_copy-outcome path net.received _ held fresh (ap (λ (fs : List Text). path ∷ fs) f)
              g (t path) refl)

    report-outcome :
        (r : Result (Unit {0})) (s : Store S)
        → ((r ≡ ok tt) × IsRead slot s) ⊎ IsStopped slot r s
        → let (done, after) = report slots net slot m r s in
          (done ≡ ok tt) × (IsRead slot after ⊎ IsFailed slot after)
    unfolding report
    report-outcome (ok _) s (inl (e, h)) = (refl, inl h)
    report-outcome (ok _) s (inr h) = absurd (ground (arith, h.stopped))
    report-outcome (err x) s (inl (e, h)) = absurd (ground (arith, e))
    report-outcome (err x) s (inr h) = (
      refl,
      inr (record {
        error = x;
        cause = subst IsCause (err-same {A = Unit {0}} h.error x (sym h.stopped)) h.cause;
        removed = h.removed;
        item = law.get-set slot _ h.held s.mods h.holds;
      }),
    )
    report-outcome panic s (inl (e, h)) = absurd (ground (arith, e))
    report-outcome panic s (inr h) = absurd (ground (arith, h.stopped))
    report-outcome diverge s (inl (e, h)) = absurd (ground (arith, e))
    report-outcome diverge s (inr h) = absurd (ground (arith, h.stopped))

-- If some name that is drawn is free and `parse_mod` returns, a download ends, with a mod in its slot
-- that was read from a new file, which is kept, or with no file left and in the slot the error of the
-- step that failed: the request, the copy of the data, or the parser on a new file.
pub mod_thread-outcome :
    {V S : Type 0} (slots : Slots S (ModInstalling V)) (net : Net V) (m : IdleMod) (s : Store S)
    → IsLawful slots
    → ((path : Text) → returns (net.parse_mod path) ≡ true)
    → any (λ d. d.1 && not (has_file (temp_path slots net d.0) s.files)) net.draws ≡ true
    → let (slot, done, after) = mod_thread slots net m s in
      (done ≡ ok tt)
      × (IsRead slots net m s.files slot after ⊎ IsFailed slots net m s.files slot after)
unfolding mod_thread mod_thread_inner
mod_thread-outcome slots net m s law t free =
    let (slot, mods) = slots.allocate (waiting m) s.mods in
    report-outcome slots net m s.files law slot _ _ (
      after_request-outcome slots net m s.files law slot net.reached (record s { mods = mods })
        (waiting m) refl (law.get-allocate (waiting m) s.mods) t free refl)
