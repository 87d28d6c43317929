-- ===== src/Spam/Downloads.antt =====
-- spam/src/main.rs: what was uploaded can be downloaded, and only once.
use mind_craft.Base.{
  ℕ, Text, text_eq_refl, Assoc, insert, lookup-insert, lookup-remove, Bool, true, false, Option,
  none, some, List, [], ◌≡◌, refl, ap, ◌∙◌, arith, Result, ok, err, panic, diverge, if◌then◌else◌,
}
use mind_craft.Spam.{
  Token, Reply, uploaded, archive, not_found, Field, authorized, create_file, write_chunks,
  flushed_content, finish_upload, fill_file, store_field, take_field, when_authorized, post_mods,
  serve_mods,
}

-- The chunks made up the content, and it is stored under the UUID.
record IsStored (field : Field) (uuid : Text) (assets after : Assoc (List ℕ)) : Type 0 where
  content : List ℕ
  whole : write_chunks [] field.chunks ≡ some content
  stored : after ≡ insert uuid content assets

flushed_content-inv :
    (b : Bool) (written : Option (List ℕ)) (content : List ℕ)
    → flushed_content b written ≡ some content
    → written ≡ some content
unfolding flushed_content
flushed_content-inv true written content h = h
flushed_content-inv false written content h = absurd (ground arith)

finish_upload-inv :
    (name uuid : Text) (written : Option (List ℕ)) (assets after : Assoc (List ℕ))
    → finish_upload name written assets ≡ (uploaded uuid, after)
    → (content : List ℕ) × (written ≡ some content) × (after ≡ insert uuid content assets)
unfolding finish_upload
finish_upload-inv name uuid none assets after h = absurd (ground (arith, h))
finish_upload-inv name uuid (some content) assets after h =
    let same : name ≡ uuid = ground (arith, h) in
    let rest : insert name content assets ≡ after = ground (arith, h) in
    (content, refl, rw (← rest, same) refl)

fill_file-IsStored :
    (field : Field) (created : Option Text) (uuid : Text) (assets after : Assoc (List ℕ))
    → fill_file field created assets ≡ (uploaded uuid, after)
    → IsStored field uuid assets after
unfolding fill_file
fill_file-IsStored field none uuid assets after h = absurd (ground (arith, h))
fill_file-IsStored field (some name) uuid assets after h =
    let (content, e, stored) = finish_upload-inv name uuid _ assets after h in
    record {
      content = content;
      whole = flushed_content-inv field.flushed _ content e;
      stored = stored;
    }

either-IsStored :
    (test : Bool) (field : Field) (uuid : Text) (assets after : Assoc (List ℕ))
    (one : Reply × Assoc (List ℕ))
    → (one ≡ (uploaded uuid, after) → IsStored field uuid assets after)
    → (if test then one else (Reply.bad_request, assets)) ≡ (uploaded uuid, after)
    → IsStored field uuid assets after
either-IsStored true field uuid assets after one k h = k h
either-IsStored false field uuid assets after one k h = absurd (ground (arith, h))

when_authorized-IsStored :
    (allowed : Result Bool) (field : Field) (draws : ℕ → Text × Bool) (uuid : Text)
    (assets after : Assoc (List ℕ))
    → when_authorized allowed (some field) draws assets ≡ ok (uploaded uuid, after)
    → IsStored field uuid assets after
unfolding when_authorized take_field store_field
when_authorized-IsStored (ok true) field draws uuid assets after h =
    either-IsStored _ field uuid assets after _
      (fill_file-IsStored field (create_file 99 draws 0 assets) uuid assets after)
      (ok-injective _ _ h)
  where
    ok-injective : (a b : Reply × Assoc (List ℕ)) → ok a ≡ ok b → a ≡ b
    ok-injective a b e = ground arith
when_authorized-IsStored (ok false) field draws uuid assets after h = absurd (ground (arith, h))
when_authorized-IsStored (err e) field draws uuid assets after h = absurd (ground (arith, h))
when_authorized-IsStored panic field draws uuid assets after h = absurd (ground (arith, h))
when_authorized-IsStored diverge field draws uuid assets after h = absurd (ground (arith, h))

-- What the first download of an archive sends, and what the second one sends.
pub downloads : (Text → Option Text) → Text → Assoc (List ℕ) → Reply × Reply
downloads parse_uuid uuid assets =
    let (first, rest) = serve_mods parse_uuid uuid false false assets in
    (first, (serve_mods parse_uuid uuid false false rest).0)

downloads-insert :
    (parse_uuid : Text → Option Text) (uuid : Text) (content : List ℕ) (assets : Assoc (List ℕ))
    → parse_uuid uuid ≡ some uuid
    → downloads parse_uuid uuid (insert uuid content assets) ≡ (archive content, not_found)
unfolding downloads serve_mods
downloads-insert parse_uuid uuid content assets valid = ground (
  arith,
  valid,
  lookup-insert {0} uuid uuid content assets,
  lookup-remove {0} uuid uuid (insert uuid content assets),
  text_eq_refl uuid,
)

-- An archive that was uploaded is downloaded once, with the chunks of the upload as its content, and is
-- not found the second time, if its UUID is read as itself and the file can be opened and removed.
pub downloads-post_mods :
    (parse_uuid : Text → Option Text) (tokens : Assoc Token) (header : Option Text) (field : Field)
    (draws : ℕ → Text × Bool) (assets after : Assoc (List ℕ)) (uuid : Text)
    → post_mods parse_uuid tokens header (some field) draws assets ≡ ok (uploaded uuid, after)
    → parse_uuid uuid ≡ some uuid
    → (content : List ℕ) × (write_chunks [] field.chunks ≡ some content)
      × (downloads parse_uuid uuid after ≡ (archive content, not_found))
unfolding post_mods
downloads-post_mods parse_uuid tokens header field draws assets after uuid h valid =
    let s =
      when_authorized-IsStored (authorized parse_uuid tokens header) field draws uuid assets after
        h in
    (
      s.content,
      s.whole,
      ap (downloads parse_uuid uuid) s.stored
          ∙ downloads-insert parse_uuid uuid s.content assets valid,
    )
