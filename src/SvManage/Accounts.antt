-- ===== src/SvManage/Accounts.antt =====
-- sv_manage/src/config.rs: the accounts and their servers; and the login of client_loop.rs.
pub mod Running
use mind_craft.Base.{
  ℕ, Text, codes, text_eq, Assoc, lookup, insert, Bool, true, false, ◌&&◌, ◌==◌, Option, none, some,
  List, [], ◌∷◌, Error, if◌then◌else◌,
}

pub record ServerConf : Type 0 where
  pub running : Bool
  pub path : Text

-- The password is the list of the bytes of its hash.
pub record AccountData : Type 0 where
  pub password : List ℕ
  pub servers : Assoc ServerConf

pub record SvManageConf : Type 0 where
  pub port : ℕ
  pub accounts : Assoc AccountData

-- What the closure of `recv_packet` returns: both ways the response goes to the client.
pub data Answer (R : Type 0) : Type 0 where
  accepted : R → Answer R
  refused : Error → R → Answer R

abbrev pub response_of : {R : Type 0} → Answer R → R
response_of (accepted r) = r
response_of (refused _ r) = r

pub data LoginResponse : Type 0 where
  login_ok wrong_credentials : LoginResponse

-- The account name, if the login is good, and the answer.
unfoldable pub login : SvManageConf → Text → List ℕ → Option Text × Answer LoginResponse
unfolding lookup text_eq
login conf user password = elim (lookup user conf.accounts) [
  | none ↦ (none, refused "Wrong credentials" wrong_credentials)
  | some account ↦
      if text_eq account.password password
      then (some user, accepted login_ok)
      else (none, refused "Wrong credentials" wrong_credentials)
]

-- The write through `get_mut(account).unwrap().servers.get_mut(server).unwrap().running`.
unfoldable pub with_running : Text → Text → Bool → SvManageConf → Option SvManageConf
unfolding lookup insert
with_running account server b conf = elim (lookup account conf.accounts) [
  | none ↦ none
  | some found ↦ elim (lookup server found.servers) [
    | none ↦ none
    | some sv ↦ some (record conf {
      accounts =
          insert account
            (record found { servers = insert server (record sv { running = b }) found.servers })
            conf.accounts;
    })
  ]
]

-- `accounts[account].servers[server].path`.
unfoldable pub path_of : Text → Text → SvManageConf → Option Text
unfolding lookup
path_of account server conf = elim (lookup account conf.accounts) [
  | none ↦ none
  | some found ↦ elim (lookup server found.servers) [ none ↦ none | some sv ↦ some sv.path ]
]
