-- ===== src/Spam/Uploads.antt =====
-- spam/src/main.rs: an archive that was uploaded is given out once, and no other one is touched.
use mind_craft.Base.{
  ℕ, zero, suc, Text, codes, text_eq, split_once, ◌==◌, ◌∷◌, ◌++◌, Option-cases, text_eq_iff, Assoc,
  lookup, insert, contains_key, lookup-insert, lookup-remove, Bool, true, false, Bool-cases, ◌||◌,
  Option, none, some, List, [], ◌≡◌, refl, ap, ◌⊎◌, inl, inr, arith, Result, ok, err, panic,
  diverge, if◌then◌else◌,
}
use mind_craft.Spam.{
  Access, Token, token_of, bearer, may_write, Reply, unauthorized, Field, authorized, create_file,
  finish_upload, fill_file, store_field, take_field, when_authorized, post_mods,
}

contains_key-none :
    {A : Type 0} → (k : Text) (m : Assoc A) → contains_key k m ≡ false → lookup k m ≡ none
unfolding contains_key
contains_key-none k m h = ground (arith, h)

-- The name of a new file is free.
create_file-none :
    (rounds : ℕ) (draws : ℕ → Text × Bool) (i : ℕ) (assets : Assoc (List ℕ)) (uuid : Text)
    → create_file rounds draws i assets ≡ some uuid
    → lookup uuid assets ≡ none
unfolding create_file
create_file-none zero draws i assets uuid h = absurd (ground arith)
create_file-none (suc rounds) draws i assets uuid h =
    let (name, failed) = draws i in
    elim (Bool-cases (failed || contains_key name assets)) [
      | inl e ↦ create_file-none rounds draws (suc i) assets uuid (rw e at h)
      | inr e ↦
          let same : some name ≡ some uuid = rw e at h in
          ground (arith, same, contains_key-none name assets (ground (arith, e)))
    ]

-- Everything that was there is there.
pub Extends : Assoc (List ℕ) → Assoc (List ℕ) → Type 0
Extends before after = (k : Text) (c : List ℕ) → lookup k before ≡ some c → lookup k after ≡ some c

Extends-refl : (assets : Assoc (List ℕ)) → Extends assets assets
unfolding Extends
Extends-refl assets k c h = h

finish_upload-Extends :
    (uuid : Text) (written : Option (List ℕ)) (assets : Assoc (List ℕ))
    → lookup uuid assets ≡ none
    → Extends assets (finish_upload uuid written assets).1
unfolding Extends finish_upload
finish_upload-Extends uuid none assets free k c h = ground (
  arith,
  free,
  h,
  lookup-remove {0} uuid k (insert uuid [] assets),
  lookup-insert {0} uuid k [] assets,
  text_eq_iff uuid k,
)
finish_upload-Extends uuid (some content) assets free k c h =
    ground (arith, free, h, lookup-insert {0} uuid k content assets, text_eq_iff uuid k)

fill_file-Extends :
    (field : Field) (created : Option Text) (assets : Assoc (List ℕ))
    → ((uuid : Text) → created ≡ some uuid → lookup uuid assets ≡ none)
    → Extends assets (fill_file field created assets).1
unfolding fill_file
fill_file-Extends field none assets free = Extends-refl assets
fill_file-Extends field (some uuid) assets free =
    finish_upload-Extends uuid _ assets (free uuid refl)

store_field-Extends :
    (field : Field) (draws : ℕ → Text × Bool) (assets : Assoc (List ℕ))
    → Extends assets (store_field field draws assets).1
unfolding store_field
store_field-Extends field draws assets =
    fill_file-Extends field (create_file 99 draws 0 assets) assets
      (create_file-none 99 draws 0 assets)

either-Extends :
    (test : Bool) (assets : Assoc (List ℕ)) (one two : Reply × Assoc (List ℕ))
    → Extends assets one.1
    → Extends assets two.1
    → Extends assets (if test then one else two).1
either-Extends true assets one two kept _ = kept
either-Extends false assets one two _ kept = kept

take_field-Extends :
    (field : Option Field) (draws : ℕ → Text × Bool) (assets : Assoc (List ℕ))
    → Extends assets (take_field field draws assets).1
unfolding take_field
take_field-Extends none draws assets = Extends-refl assets
take_field-Extends (some field) draws assets =
    either-Extends _ assets _ _ (store_field-Extends field draws assets) (Extends-refl assets)

when_authorized-Extends :
    (allowed : Result Bool) (field : Option Field) (draws : ℕ → Text × Bool)
    (assets : Assoc (List ℕ)) (reply : Reply) (after : Assoc (List ℕ))
    → when_authorized allowed field draws assets ≡ ok (reply, after)
    → ((allowed ≡ ok true) × Extends assets after) ⊎ ((reply ≡ unauthorized) × (after ≡ assets))
unfolding when_authorized
when_authorized-Extends (ok true) field draws assets reply after h =
    let same : (take_field field draws assets).1 ≡ after = ground (arith, h) in
    inl (refl, rw same at (take_field-Extends field draws assets))
when_authorized-Extends (ok false) field draws assets reply after h =
    inr (ground (arith, h), ground (arith, h))
when_authorized-Extends (err e) field draws assets reply after h = absurd (ground (arith, h))
when_authorized-Extends panic field draws assets reply after h = absurd (ground (arith, h))
when_authorized-Extends diverge field draws assets reply after h = absurd (ground (arith, h))

-- What a header must be: `Bearer`, a space and the UUID of a token with the flag for writing.
pub record MayWrite (parse_uuid : Text → Option Text) (tokens : Assoc Token) (header : Option Text)
    : Type 0 where
  pub written : Text
  pub uuid : Text
  pub token : Token
  pub access : Access
  pub header_is : header ≡ some (codes "Bearer " ++ written)
  pub uuid_is : parse_uuid written ≡ some uuid
  pub token_is : lookup uuid tokens ≡ some token
  pub access_is : token.assets_mods ≡ some access
  pub can_write : access.write ≡ true

-- What stands before and behind the first such character.
split_once-append :
    (c : ℕ) (s before behind : Text)
    → split_once c s ≡ some (before, behind)
    → s ≡ before ++ c ∷ behind
unfolding split_once
split_once-append c [] before behind h = absurd (ground arith)
split_once-append c (a ∷ s) before behind h = elim (Bool-cases (a == c)) [
  | inl e ↦ ground (arith, h, e)
  | inr e ↦ elim (Option-cases (split_once c s)) [
    | inl f ↦ absurd (ground (arith, h, e, f))
    | inr ((first, rest), f) ↦
        let tail = split_once-append c s first rest f in ground (arith, h, e, f, tail)
  ]
]

token_of-MayWrite :
    (tokens : Assoc Token) (found : Option Text)
    → token_of tokens found ≡ ok true
    → (uuid : Text) × (token : Token) × (access : Access) × (found ≡ some uuid)
      × (lookup uuid tokens ≡ some token)
      × (token.assets_mods ≡ some access)
      × (access.write ≡ true)
unfolding token_of may_write
token_of-MayWrite tokens none h = absurd (ground (arith, h))
token_of-MayWrite tokens (some uuid) h = elim (Option-cases (lookup uuid tokens)) [
  | inl e ↦ absurd (ground (arith, h, e))
  | inr (token, e) ↦ elim (Option-cases token.assets_mods) [
    | inl f ↦ absurd (ground (arith, h, e, f))
    | inr (access, f) ↦ (uuid, token, access, refl, e, f, ground (arith, h, e, f))
  ]
]

bearer-written :
    (parse_uuid : Text → Option Text) (tokens : Assoc Token) (parts : Option (Text × Text))
    → token_of tokens (bearer parse_uuid parts) ≡ ok true
    → (written : Text) × (parts ≡ some (codes "Bearer", written))
      × (token_of tokens (parse_uuid written) ≡ ok true)
unfolding bearer token_of
bearer-written parse_uuid tokens none h = absurd (ground (arith, h))
bearer-written parse_uuid tokens (some (scheme, written)) h =
    elim (Bool-cases (text_eq scheme (codes "Bearer"))) [
      | inl f ↦
          let same = (text_eq_iff scheme (codes "Bearer")).0 f in (written, rw same refl, rw f at h)
      | inr f ↦ absurd (no_token (rw f at h))
    ]
  where
    no_token : token_of tokens none ≡ ok true → ⊥
    no_token h = ground (arith, h)

authorized-MayWrite :
    (parse_uuid : Text → Option Text) (tokens : Assoc Token) (header : Option Text)
    → authorized parse_uuid tokens header ≡ ok true
    → MayWrite parse_uuid tokens header
unfolding authorized
authorized-MayWrite parse_uuid tokens none h = absurd (ground (arith, h))
authorized-MayWrite parse_uuid tokens (some text) h =
    let (written, parts, allowed) = bearer-written parse_uuid tokens (split_once b' ' text) h in
    let (uuid, token, access, p, t, a, w) = token_of-MayWrite tokens (parse_uuid written) allowed in
    record {
      written = written;
      uuid = uuid;
      token = token;
      access = access;
      header_is = ap some (split_once-append b' ' text (codes "Bearer") written parts);
      uuid_is = p;
      token_is = t;
      access_is = a;
      can_write = w;
    }

-- An upload either has a header `Bearer` with the UUID of a token that has the flag for writing, and keeps
-- every archive that was there, or is answered as unauthorized and changes nothing, if it does not panic.
pub post_mods-Extends :
    (parse_uuid : Text → Option Text) (tokens : Assoc Token) (header : Option Text)
    (field : Option Field) (draws : ℕ → Text × Bool) (assets : Assoc (List ℕ)) (reply : Reply)
    (after : Assoc (List ℕ))
    → post_mods parse_uuid tokens header field draws assets ≡ ok (reply, after)
    → (MayWrite parse_uuid tokens header × Extends assets after)
      ⊎ ((reply ≡ unauthorized) × (after ≡ assets))
unfolding post_mods
post_mods-Extends parse_uuid tokens header field draws assets reply after h =
    elim (when_authorized-Extends (authorized parse_uuid tokens header) field draws assets reply
      after h) [
        | inl (allowed, kept) ↦ inl (authorized-MayWrite parse_uuid tokens header allowed, kept)
        | inr refused ↦ inr refused
      ]
