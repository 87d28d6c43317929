-- ===== src/SvManage/Install/Files.antt =====
-- sv_manage/src/server_loop.rs: what an installation does to the files that it is not about.
use mind_craft.Base.{
  suc, length, join, Text, text_eq, text_eq_iff, Assoc, lookup, insert, remove, lookup-insert,
  lookup-remove, true, false, Bool-cases, ◌&&◌, Option, none, some, is_some, Option-cases, ◌≡◌, inl,
  inr, arith, Error, if◌then◌else◌,
}
use mind_craft.Yapper.ModParser.Parse.{Bytes}
use mind_craft.SvManage.World.{
  Node, file, dir, World, Host, Exec, pure, fail, gets, modify, match_option, ◌>>=◌,
}
use mind_craft.SvManage.World.Keeps.{
  Keeps, Keeps-bind, Keeps-if, Keeps-pure, Keeps-fail, Keeps-gets,
}
use mind_craft.SvManage.World.Leads.{Leads, Leads-Keeps, Leads-bind}
use mind_craft.SvManage.Install.{free_path, destination}
use mind_craft.SvManage.Install.FreePath.{free_path-none}
use mind_craft.SvManage.Files.{rename, remove_file, create_dir, ensure_dir}
use mind_craft.SvManage.Files.Keeps.{IgnoresFaults, IgnoresCache, syscall-Keeps}

kept : {S A : Type 0} {P : S → Type 0} {m : Exec S A} → Keeps P m → Leads P P m
kept k = record { to = k.at }

-- The file is there with this content.
pub record HasFile {V : Type 0} (p : Text) (c : Bytes) (w : World V) : Type 0 where
  pub has : lookup p w.fs ≡ some (file c)

moved :
    (p : Text) (c : Bytes) (fs : Assoc Node) (a b : Text) (node : Node)
    → lookup p fs ≡ some (file c)
    → text_eq a p ≡ false
    → lookup b fs ≡ none
    → lookup p (insert b node (remove a fs)) ≡ some (file c)
moved p c fs a b node h other free = elim (Bool-cases (text_eq b p)) [
  | inl e ↦
      let same : b ≡ p = ground (arith, text_eq_iff b p, e) in
      absurd (ground (arith, h, rw same at free))
  | inr e ↦
      ground
        (arith, h, other, e, lookup-insert {0} b p node (remove a fs), lookup-remove {0} a p fs)
]

made :
    (p : Text) (c : Bytes) (fs : Assoc Node) (q : Text)
    → lookup p fs ≡ some (file c)
    → lookup q fs ≡ none
    → lookup p (insert q dir fs) ≡ some (file c)
made p c fs q h free = elim (Bool-cases (text_eq q p)) [
  | inl e ↦
      let same : q ≡ p = ground (arith, text_eq_iff q p, e) in
      absurd (ground (arith, h, rw same at free))
  | inr e ↦ ground (arith, h, e, lookup-insert {0} q p dir fs)
]

module _ {V : Type 0} (p : Text) (c : Bytes) where
  pub HasFile-faults : IgnoresFaults (HasFile {V = V} p c)
  HasFile-faults = record { on_faults = λ w bs h. record { has = h.has } }

  pub HasFile-cache : IgnoresCache (HasFile {V = V} p c)
  HasFile-cache = record { on_cache = λ w cache m z h. record { has = h.has } }

  -- A write that leaves the file in place.
  write-HasFile :
      (f : Assoc Node → Assoc Node)
      → ((fs : Assoc Node) → lookup p fs ≡ some (file c) → lookup p (f fs) ≡ some (file c))
      → Keeps (HasFile {V = V} p c) (modify (λ w. record w { fs = f w.fs }))
  unfolding ◌>>=◌
  write-HasFile f k = record { at = λ w h. record { has = k w.fs h.has } }

  pub remove_file-HasFile :
      (e : Error) (q : Text) → text_eq q p ≡ false → Keeps (HasFile {V = V} p c) (remove_file e q)
  unfolding remove_file
  remove_file-HasFile e q other = Keeps-bind _ _ (syscall-Keeps HasFile-faults e) λ _.
      Keeps-bind _ _ (Keeps-gets _) λ here.
        Keeps-if here _ _
          (write-HasFile (remove q) λ fs h. ground (arith, h, other, lookup-remove {0} q p fs))
          (Keeps-fail e)

  make_dir-HasFile :
      (q : Text)
      → Keeps (HasFile {V = V} p c) (
          gets (λ w. is_some (lookup q w.fs)) >>= λ here.
          if here
          then pure true
          else (modify (λ w. record w { fs = insert q dir w.fs }) >>= λ _. pure false))
  unfolding ◌>>=◌
  make_dir-HasFile q = record {
    at = λ w h. elim (Option-cases (lookup q w.fs)) [
      | inl e ↦ rw e (record { has = made p c w.fs q h.has e })
      | inr (node, e) ↦ rw e h
    ];
  }

  create_dir-HasFile : (e : Error) (q : Text) → Keeps (HasFile {V = V} p c) (create_dir e q)
  unfolding create_dir
  create_dir-HasFile e q = Keeps-bind _ _ (syscall-Keeps HasFile-faults e) λ _. make_dir-HasFile q

  pub ensure_dir-HasFile : (q : Text) → Keeps (HasFile {V = V} p c) (ensure_dir q)
  unfolding ensure_dir
  ensure_dir-HasFile q = Keeps-bind _ _ (create_dir-HasFile _ q) λ existed.
      Keeps-bind _ _ (Keeps-gets _)
        λ blocked. Keeps-if (existed && blocked) _ _ (Keeps-fail _) (Keeps-pure _)

  -- The file is there, and nothing is at `b`.
  pub Before : Text → World V → Type 0
  Before b w = HasFile p c w × (lookup b w.fs ≡ none)

  Before-faults : (b : Text) → IgnoresFaults (Before b)
  unfolding Before
  Before-faults b = record { on_faults = λ w bs h. (record { has = h.0.has }, h.1) }

  write_new-Leads :
      (a b : Text) (node : Node)
      → text_eq a p ≡ false
      → Leads
          (Before b)
          (HasFile {V = V} p c)
          (modify (λ w. record w { fs = insert b node (remove a w.fs) }))
  unfolding Before ◌>>=◌
  write_new-Leads a b node other = record {
    to = λ w h. record { has = moved p c w.fs a b node h.0.has other h.1 };
  }

  weaken : (b : Text) (w : World V) → Before b w → HasFile p c w
  unfolding Before
  weaken b w h = h.0

  match-Leads :
      (a b : Text) (e : Error) (n : Option Node)
      → text_eq a p ≡ false
      → Leads (Before b) (HasFile {V = V} p c) (
          match_option n
            (fail e)
            λ node. modify (λ w. record w { fs = insert b node (remove a w.fs) }))
  unfolding ◌>>=◌
  match-Leads a b e none other = Leads-Keeps (fail e) (weaken b) (Keeps-fail e)
  match-Leads a b e (some node) other = write_new-Leads a b node other

  pub rename-Leads :
      (e : Error) (a b : Text)
      → text_eq a p ≡ false
      → Leads (Before b) (HasFile {V = V} p c) (rename e a b)
  unfolding rename
  rename-Leads e a b other =
      Leads-bind _ _ (weaken b) (kept (syscall-Keeps (Before-faults b) e))
        λ _. Leads-bind _ _ (weaken b) (kept (Keeps-gets _)) λ n. match-Leads a b e n other

  -- The path that is found is free when the next action begins.
  pub destination-Leads :
      {A : Type 0} (host : Host V) (mods_folder filename : Text) (next : Text → Exec (World V) A)
      → ((dest : Text) → Leads (Before dest) (HasFile p c) (next dest))
      → Keeps (HasFile p c) (destination host mods_folder filename >>= next)
  unfolding destination Before ◌>>=◌
  destination-Leads host mods_folder filename next k = record {
    at = λ w h.
        let search =
          free_path (suc (suc (length w.fs))) filename (join mods_folder filename) w.fs in
        elim (Option-cases search) [
          | inl e ↦ rw e h
          | inr (dest, e) ↦ rw e (
              (k dest).to w (
                h,
                free_path-none filename w.fs (suc (suc (length w.fs))) (join mods_folder filename)
                    dest e,
              ))
        ];
  }
