-- ===== src/Users/Service/Requests/Tests.antt =====
-- Runs of requests, and the theorems at a server with one administrator.
use cli_server_python.Prelude.{
  ◌≡◌, refl, sym, ◌∙◌, String, true, none, some, [], ◌∷◌, arith, strip, split_on, eq_iff,
}
use cli_server_python.Prelude.Action.{ok, err}
use cli_server_python.Prelude.Checks.{◌>>=◌, refuse_if}
use cli_server_python.Prelude.Chars.{
  text_length, text_all, text_take, text_filter, text_last, chomp, concat, comma_join,
}
use cli_server_python.Prelude.Dict.{get, put, pop}
use cli_server_python.Permissions.{
  match_segments, segments, permission_matches, has_permission, merge_permissions, covers,
  uncovered,
}
use cli_server_python.Users.Lockout.{reset_failures}
use cli_server_python.Users.Stores.{
  User, get_group, create_user as store_user, name_is_taken, delete_user as drop_user,
  delete_user_tokens,
}
use cli_server_python.Users.Stores.Changing.{
  unchanged, update_user as store_changes, set_credentials, delete_credentials,
}
use cli_server_python.Users.Auth.{effective_permissions}
use cli_server_python.Users.Auth.Revoking.{revoke_user_sessions}
use cli_server_python.Users.Validation.{
  conflict, matches_name, matches_email, is_control, has_control_chars, has_lone_surrogates,
  is_alnum, is_name_char, is_atom_char, is_label, is_domain, validate_name, validate_email,
  validate_text,
}
use cli_server_python.Users.Service.{
  Service, last_admin, check_password, is_self, in_group, is_enabled_admin, is_last_enabled_admin,
  takes, ensure_unique, resolve_groups, ensure_covers_user, ensure_can_grant_permissions,
  ensure_can_grant_groups,
}
use cli_server_python.Users.Service.Users.{
  NewUser, set_password, groups_of_new, check_create_user, create_user, check_update_user,
  update_user, after_disabling, check_delete_user, delete_user,
}
use cli_server_python.Users.Service.Directory.{Allowed, IsSound, clash}
use cli_server_python.Users.Service.Samples.{settings, user, root, bob, with_users, seeded, caller}
use cli_server_python.Users.Service.Requests.{
  creating_user, deleting_user, handle, Reach, done, step,
}
use cli_server_python.Users.Service.Requests.Laws.{handle-Allowed, Reach-IsSound}
use cli_server_python.Users.Service.Requests.Refused.{handle-err}
use cli_server_python.Users.Service.Granting.{update_user-covers}

abbrev new_ann : NewUser
new_ann = record {
  name = " ann ";
  email = "ann@example.org";
  groups = some ("admin" ∷ []);
  password = some "long enough";
  disabled = none;
  home_dir = none;
}

users : Unit {0}
unfolding ◌>>=◌ handle create_user check_create_user groups_of_new set_password update_user
    check_update_user after_disabling delete_user check_delete_user validate_name validate_email
    validate_text matches_name matches_email is_alnum is_name_char is_atom_char is_label is_domain
    is_control has_control_chars has_lone_surrogates check_password is_self in_group
    is_enabled_admin is_last_enabled_admin takes ensure_unique resolve_groups ensure_covers_user
    ensure_can_grant_permissions ensure_can_grant_groups store_user store_changes drop_user
    delete_user_tokens set_credentials delete_credentials reset_failures revoke_user_sessions
    get_group name_is_taken effective_permissions merge_permissions covers uncovered has_permission
    permission_matches match_segments segments strip split_on text_length text_all text_take
    text_filter text_last chomp concat comma_join get put pop refuse_if clash
users = tt

created_tests :
    ((create_user settings 7 "a" (some caller) new_ann seeded).0
      ≡ ok (record (user "a" "ann" "ann@example.org" ("admin" ∷ [])) {
        created_at = 7;
        updated_at = 7;
      }))
    × ((create_user settings 7 "a" (some caller) (record new_ann { email = "ann@x" }) seeded).1
        ≡ seeded)
    × ((delete_user settings none root seeded).0 ≡ err (conflict last_admin))
unfolding users
created_tests = (refl, refl, refl)

-- `ann` becomes an administrator, who may then delete the first one.
abbrev with_ann : Service
with_ann = (handle settings 7 (creating_user "a" (some caller) new_ann) seeded).1

root_deleted : get "r" (handle settings 9 (deleting_user none root) with_ann).1.auth.users ≡ none
unfolding users
root_deleted = refl

seeded-IsSound : IsSound (λ s. s) seeded.auth.users
unfolding users
seeded-IsSound = record {
  keyed = (refl, refl, tt);
  has_admin = omega arith;
  unique = λ j k u v p q n. absurd (n (only_key j p ∙ sym (only_key k q)));
}
  where
    only_key : (j : String) {u : User} → get j seeded.auth.users ≡ some u → j ≡ "r"
    only_key j e = unfold get in ground (arith, eq_iff "r" j)

requests : Reach settings seeded (handle settings 9 (deleting_user none root) with_ann).1
unfolding users
requests =
    step 7 (creating_user "a" (some caller) new_ann) {s = seeded} refl
      (step 9 (deleting_user none root) {s = with_ann} refl done)

Reach-IsSound_example :
    IsSound (λ s. s) (handle settings 9 (deleting_user none root) with_ann).1.auth.users
unfolding users
Reach-IsSound_example = Reach-IsSound settings refl requests seeded-IsSound

handle-Allowed_example :
    Allowed
      (λ s. s)
      seeded.auth.users
      (handle settings 9 (deleting_user none root) seeded).1.auth.users
unfolding users
handle-Allowed_example =
    handle-Allowed settings refl 9 (deleting_user none root) seeded seeded-IsSound.keyed refl

handle-err_example : (handle settings 9 (deleting_user none root) seeded).1 ≡ seeded
unfolding users
handle-err_example =
    handle-err settings 9 (deleting_user none root) seeded seeded-IsSound.keyed refl
      (conflict last_admin) refl

abbrev with_bob : Service
with_bob = with_users (("r", root) ∷ ("b", bob) ∷ [])

update_user-covers_example :
    (covers
        (λ s. s)
        ("*" ∷ [])
        (effective_permissions settings.config ("users" ∷ []) with_bob.auth.groups)
      ≡ true)
    × (covers
          (λ s. s)
          ("*" ∷ [])
          (effective_permissions settings.config ("admin" ∷ []) with_bob.auth.groups)
        ≡ true)
unfolding users
update_user-covers_example =
    update_user-covers settings 9 caller bob (record bob { groups = "admin" ∷ []; updated_at = 9 })
      (record unchanged { groups = some ("admin" ∷ []) }) with_bob refl refl refl
