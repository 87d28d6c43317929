-- ===== src/SvManage/Accounts/Running.antt =====
-- sv_manage/src/config.rs and client_loop.rs: what a change of `running` leaves of the configuration, and
-- who gets in.
use mind_craft.Base.{
  ℕ, Text, text_eq, text_eq_iff, lookup, insert, lookup-insert, Bool, ◌&&◌, Option, none, some,
  Option-cases, List, ◌≡◌, ◌↔◌, inl, inr, arith, if◌then◌else◌,
}
use mind_craft.SvManage.Accounts.{AccountData, SvManageConf, login, with_running}

-- `accounts[account].servers[server].running`.
pub running_of : Text → Text → SvManageConf → Option Bool
running_of account server conf = elim (lookup account conf.accounts) [
  | none ↦ none
  | some found ↦ elim (lookup server found.servers) [ none ↦ none | some sv ↦ some sv.running ]
]

-- A change of `running` is seen for that server of that account and no other.
with_running-running_of :
    (account server : Text) (b : Bool) (conf conf' : SvManageConf) (a s : Text)
    → with_running account server b conf ≡ some conf'
    → running_of a s conf'
      ≡ (if text_eq account a && text_eq server s then some b else running_of a s conf)
unfolding with_running running_of
with_running-running_of account server b conf conf' a s h =
    elim (Option-cases (lookup account conf.accounts)) [
      | inl e ↦ absurd (ground (arith, e, h))
      | inr (found, e) ↦ elim (Option-cases (lookup server found.servers)) [
        | inl e' ↦ absurd (ground (arith, e, e', h))
        | inr (sv, e') ↦ ground (
          arith,
          e,
          e',
          h,
          lookup-insert {0} account a
              (record found { servers = insert server (record sv { running = b }) found.servers })
              conf.accounts,
          lookup-insert {0} server s (record sv { running = b }) found.servers,
          text_eq_iff account a,
          text_eq_iff server s,
        )
      ]
    ]

-- A login gets an account if and only if there is one of that name with that password.
login_account :
    (conf : SvManageConf) (user : Text) (password : List ℕ) (name : Text)
    → ((login conf user password).0 ≡ some name) ↔ (
        (name ≡ user)
        × ((found : AccountData) × ((lookup user conf.accounts ≡ some found)
              × (found.password ≡ password))))
unfolding login
login_account conf user password name = (
  λ h. elim (Option-cases (lookup user conf.accounts)) [
    | inl e ↦ absurd (ground (arith, e, h))
    | inr (found, e) ↦ (
      ground (arith, e, h, text_eq_iff found.password password),
      (found, (e, ground (arith, e, h, text_eq_iff found.password password))),
    )
  ],
  λ h. ground (arith, h, text_eq_iff password password),
)
