-- ===== src/Controller/Vscode/Rehash.antt =====
-- What the sign-in through Coder does to an account that is already there
-- (controller/coder_auth.go, model/user.go).
use new_api_blues.Prelude.{
  ℕ, ℤ, String, str_eq, true, false, ◌||◌, some, [], inl, inr, ◌==◌, ==_self, ◌≡◌, refl, ap, ◌∙◌,
  arith, if◌then◌else◌, Bool-cases,
}
use new_api_blues.Model.Store.{
  World, User, Result, ok, user_id_of, user_row, find_row, find_row-update_rows, update_rows,
  statement_ok,
}
use new_api_blues.Model.Quota.{Config}
use new_api_blues.Model.Accounts.{
  Bonus, Drawn, find_user_by, first_user_by, patch, text_or, number_or, amount_or, violates,
  updates, ban_user, unban_user, user_update,
}
use new_api_blues.Model.Accounts.Ids.{IdsInOrder, find_user_by_id}
use new_api_blues.Model.Accounts.Rows.{patch-id}
use new_api_blues.Controller.Vscode.{CoderUser, find_or_create_coder_user}

email_found :
    (email : String) (u : User) (w : World)
    → w.faults ≡ []
    → find_user_by (λ x. x.email) email w.users ≡ some u
    → first_user_by (λ x. x.email) email w ≡ (ok u, w)
unfolding first_user_by
email_found email u w h f = ground (arith, statement_ok w h, f)

text_same : (x : String) → text_or x x ≡ x
text_same x = ground arith

number_same : (x : ℕ) → number_or x x ≡ x
number_same x = ground arith

amount_same : (x : ℤ) → amount_or x x ≡ x
amount_same x = ground arith

-- The row that is written, where only the display name and the password differ.
patch-renamed :
    (name h : String) (u : User)
    → str_eq name "" ≡ false
    → str_eq h "" ≡ false
    → patch (record u { display_name = name; password = h }) u
      ≡ record u { display_name = name; password = h }
unfolding patch
patch-renamed name h u n e =
    rw (n, e)
      (λ i. record u {
        display_name = name;
        password = h;
        username = text_same u.username i;
        role = number_same u.role i;
        status = number_same u.status i;
        email = text_same u.email i;
        access_token = text_same u.access_token i;
        github_id = text_same u.github_id i;
        lark_id = text_same u.lark_id i;
        oidc_id = text_same u.oidc_id i;
        quota = amount_same u.quota i;
        used_quota = amount_same u.used_quota i;
        request_count = amount_same u.request_count i;
        group = text_same u.group i;
        aff_code = text_same u.aff_code i;
        inviter_id = number_same u.inviter_id i;
      })

updates-row :
    (x : User) (w : World)
    → w.faults ≡ []
    → (x.id == 0) ≡ false
    → violates x w.users ≡ false
    → (updates x w).1.users ≡ update_rows user_id_of x.id (patch x) w.users
unfolding updates
updates-row x w h i c = rw (i, statement_ok w h, c) refl

-- The update writes the hash of the password that it is given.
update-row :
    (hash : String → Result String) (x : User) (h : String) (w : World)
    → w.faults ≡ []
    → (x.id == 0) ≡ false
    → hash x.password ≡ ok h
    → violates (record x { password = h }) w.users ≡ false
    → (user_update hash true x w).1.users
      ≡ update_rows user_id_of x.id (patch (record x { password = h })) w.users
unfolding user_update ban_user unban_user
update-row hash x h w f i g k =
    let y = record x { password = h } in
    elim (Bool-cases (x.status == 2)) [
      | inl d ↦ rw (g, d) (updates-row y (ban_user x.id w).1 f i k)
      | inr d ↦ elim (Bool-cases (x.status == 1)) [
        | inl e ↦ rw (g, d, e) (updates-row y (unban_user x.id w).1 f i k)
        | inr e ↦ rw (g, d, e) (updates-row y w f i k)
      ]
    ]

-- If a user has the e-mail address of the Coder user, then after findOrCreateCoderUser the user's
-- row is unchanged when the Coder user's name is empty or the display name already; otherwise it
-- has that name as its display name and, as its password, the hash of the stored hash, and is else
-- unchanged. The ids of the users are in order, no statement and no hashing fails, a hash is not
-- empty, and no other row has the user's name, access token or code.
pub find_or_create_coder_user-rehash :
    (hash : String → Result String) (config : Config) (bonus : Bonus) (drawn : Drawn)
    (oauth_password : String) (c : CoderUser) (u : User) (h : String) (w : World)
    → w.faults ≡ []
    → IdsInOrder w
    → find_user_by (λ x. x.email) c.email w.users ≡ some u
    → (u.id == 0) ≡ false
    → hash u.password ≡ ok h
    → str_eq h "" ≡ false
    → violates (record u { display_name = c.name; password = h }) w.users ≡ false
    → user_row (find_or_create_coder_user hash config bonus drawn oauth_password c w).1 u.id
      ≡ some (
          if str_eq c.name "" || str_eq u.display_name c.name
          then u
          else record u { display_name = c.name; password = h })
unfolding find_or_create_coder_user
find_or_create_coder_user-rehash hash config bonus drawn oauth c u h w faults o f i g e k =
    let there = (find_user_by_id (λ x. x.email) c.email 0 w.next_user w.users u o f).0 in
    let x = record u { display_name = c.name } in
    elim (Bool-cases (str_eq c.name "")) [
      | inl n ↦ rw (email_found c.email u w faults f, n) ground (arith, there)
      | inr n ↦ elim (Bool-cases (str_eq u.display_name c.name)) [
        | inl m ↦ rw (email_found c.email u w faults f, n, m) there
        | inr m ↦
            rw (email_found c.email u w faults f, n, m)
              (ap (find_row user_id_of u.id) (update-row hash x h w faults i g k)
                ∙ find_row-update_rows user_id_of u.id u.id (patch (record x { password = h }))
                    w.users (patch-id (record x { password = h }))
                ∙ rw (there, ==_self u.id) (ap some (patch-renamed c.name h u n e)))
      ]
    ]
