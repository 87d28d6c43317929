-- ===== src/Yapper/Conf/Durable.antt =====
-- yapper/src/conf.rs: what of a change of a configuration is found after a restart.
use mind_craft.Base.{
  ℕ, zero, suc, drop, true, false, Bool-cases, Option, none, some, Option-cases, [], ◌++◌, length,
  ◌≡◌, refl, ap, sym, append-nil, ◌∙◌, ◌+◌, inl, inr, ◌⊎◌, arith, to_option, ok, err,
}
use mind_craft.Yapper.ModParser.Parse.{Bytes}
use mind_craft.Yapper.Conf.{
  Serde, OpenFile, Config, Calls, write_all, write_at, write_bytes, save, with_config_mut,
  opened_config, init,
}

drop_nil : (n : ℕ) → drop {A = ℕ} n [] ≡ []
drop_nil zero = refl
drop_nil (suc n) = refl

-- What is written to an empty file is all of it.
write_at_empty : (bytes : Bytes) → write_at 0 bytes [] ≡ bytes
unfolding write_at
write_at_empty bytes = ap (λ t. bytes ++ t) (drop_nil (0 + length bytes)) ∙ append-nil bytes

write_bytes_empty :
    (bytes : Bytes) → (write_bytes bytes (record { content = []; position = 0 })).content ≡ bytes
unfolding write_bytes
write_bytes_empty bytes = write_at_empty bytes

module _ {T : Type 0} (serde : Serde T) where
  -- What is written is read as itself.
  unfoldable pub IsReadable : Type 0
  IsReadable =
      (config : T) (bytes : Bytes)
      → serde.write config ≡ some bytes
      → serde.read bytes ≡ some config

  save-content :
      (calls : Calls) (config : T) (file : OpenFile) (bytes : Option Bytes)
      → serde.write config ≡ bytes
      → (save serde calls config file).0 ≡ true
      → bytes ≡ some (save serde calls config file).1.content
  unfolding save write_all write_bytes
  save-content calls config file none e s = absurd (ground (arith, e, s))
  save-content calls config file (some bytes) e s = elim (Bool-cases calls.set_len) [
    | inr e1 ↦ absurd (ground (arith, e1, s))
    | inl e1 ↦ elim (Bool-cases calls.seek) [
      | inr e2 ↦ absurd (ground (arith, e1, e2, s))
      | inl e2 ↦ elim (Option-cases calls.written) [
        | inr (n, e3) ↦ absurd (ground (arith, e, e1, e2, e3, s))
        | inl e3 ↦ rw (e1, e2, e, e3) (ap some (sym (write_bytes_empty bytes)))
      ]
    ]
  ]

  -- After a change that returned, a start reads the changed configuration from the file, whatever was in
  -- it and wherever its cursor stood, if what serde_json writes is read as itself.
  pub init-with_config_mut :
      {R : Type 0} (f : T → R × T) (calls : Calls) (c : Config T) (r : R) (restart : Calls)
      → IsReadable
      → (with_config_mut serde f calls c).0 ≡ ok r
      → restart.opened ≡ true
      → let after = (with_config_mut serde f calls c).1 in
        (after.config ≡ (f c.config).1)
        × ((init serde restart (some after.file.content)).0
            ≡ ok (record after {
              file = record { content = after.file.content; position = length after.file.content };
            }))
  unfolding with_config_mut init opened_config IsReadable
  init-with_config_mut f calls c r restart readable e o =
      let (r', config) = f c.config in
      elim (Bool-cases (save serde calls config c.file).0) [
        | inr s ↦ absurd (ground (arith, e, s))
        | inl s ↦
            let kept =
              readable config _ (save-content calls config c.file (serde.write config) refl s) in
            (refl, rw (o, kept) refl)
      ]

  save-lost :
      (calls : Calls) (config : T) (file : OpenFile) (bytes : Option Bytes)
      → serde.write config ≡ bytes
      → calls.set_len ≡ true
      → (calls.seek ≡ false) ⊎ (calls.written ≡ some 0)
      → ((save serde calls config file).0 ≡ false) × ((save serde calls config file).1.content ≡ [])
  unfolding save write_all write_bytes write_at
  save-lost calls config file bytes e e1 (inl e2) = (ground (arith, e1, e2), ground (arith, e1, e2))
  save-lost calls config file none e e1 (inr e3) =
      (ground (arith, e, e1, e3), ground (arith, e, e1, e3))
  save-lost calls config file (some bytes) e e1 (inr e3) = elim (Bool-cases calls.seek) [
    | inr e2 ↦ (ground (arith, e1, e2), ground (arith, e1, e2))
    | inl e2 ↦ (ground (arith, e, e1, e2, e3), rw (e1, e2, e, e3) refl)
  ]

  -- If the file is emptied and the next call fails, the change stands in memory, and the next start finds
  -- no configuration at all, if an empty file is none.
  pub with_config_mut_loses :
      {R : Type 0} (f : T → R × T) (calls : Calls) (c : Config T) (restart : Calls)
      → serde.read [] ≡ none
      → calls.set_len ≡ true
      → (calls.seek ≡ false) ⊎ (calls.written ≡ some 0)
      → let (result, after) = with_config_mut serde f calls c in
        (result ≡ err "Failed to flush configuration changes")
        × (after.config ≡ (f c.config).1)
        × (to_option (init serde restart (some after.file.content)).0 ≡ none)
  unfolding with_config_mut init opened_config
  with_config_mut_loses f calls c restart empty e1 e2 =
      let (s, lost) =
        save-lost calls (f c.config).1 c.file (serde.write (f c.config).1) refl e1 e2 in
      (rw s refl, refl, rw (lost, empty) (ground arith))
