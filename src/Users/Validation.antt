-- ===== src/Users/Validation.antt =====
-- plugins/users/qodalis_cli_users/validation.py and the errors of errors.py: the rules for names,
-- emails, texts and permissions. The regular expressions are written as tests on the code points.
-- `lower` is `str.lower`.
use cli_server_python.Prelude.{
  ◌==◌, ℕ, String, Bool, false, not, ◌&&◌, ◌||◌, Option, none, some, List, [], ◌∷◌, ◌++◌, any, all,
  ltb, leb, str_eq, length, is_empty, strip, split_on, if◌then◌else◌,
}
use cli_server_python.Prelude.Chars.{
  text_length, text_all, text_take, text_filter, text_last, chomp, concat,
}
use cli_server_python.Prelude.Action.{Result, ok, err}

-- A UsersApiError by its status (400, 401, 403, 404, 409, 429), and the KeyError of a store.
pub data ApiError : Type 0 where
  bad_request unauthorized forbidden not_found conflict too_many_requests key_error :
      String → ApiError

abbrev pub name_max : ℕ
name_max = 64

abbrev pub email_max : ℕ
email_max = 254

abbrev pub permission_max : ℕ
permission_max = 128

abbrev pub permissions_per_group_max : ℕ
permissions_per_group_max = 100

abbrev pub description_max : ℕ
description_max = 256

abbrev pub password_max : ℕ
password_max = 1024

unfoldable pub is_surrogate : ℕ → Bool
is_surrogate c = leb 0xd800 c && leb c 0xdfff

unfoldable pub is_control : ℕ → Bool
unfolding is_surrogate
is_control c = leb c 0x1f || c == 0x7f || is_surrogate c

unfoldable pub has_control_chars : String → Bool
unfolding is_control
has_control_chars value = not (text_all (λ c. not (is_control c)) value)

unfoldable pub has_lone_surrogates : String → Bool
unfolding is_surrogate
has_lone_surrogates value = not (text_all (λ c. not (is_surrogate c)) value)

-- `sanitize` of a text, with a limit.
unfoldable pub sanitize : String → ℕ → String
unfolding is_control
sanitize value max_len = text_take max_len (text_filter (λ c. not (is_control c)) value)

unfoldable pub is_digit : ℕ → Bool
is_digit c = leb b'0' c && leb c b'9'

unfoldable pub is_letter : ℕ → Bool
is_letter c = (leb b'A' c && leb c b'Z') || (leb b'a' c && leb c b'z')

unfoldable pub is_alnum : ℕ → Bool
unfolding is_digit is_letter
is_alnum c = is_letter c || is_digit c

-- `[A-Za-z0-9._@-]`
unfoldable pub is_name_char : ℕ → Bool
unfolding is_alnum
is_name_char c = is_alnum c || c == b'.' || c == b'_' || c == b'@' || c == b'-'

-- `NAME_RE`, whose `$` also matches before a final newline.
unfoldable pub matches_name : String → Bool
unfolding is_alnum is_name_char
matches_name value =
    let s = chomp value in
    not (is_empty s) && text_all is_alnum (text_take 1 s) && text_all is_name_char s

unfoldable pub validate_name : String → Result ApiError String
unfolding matches_name
validate_name value =
    if is_empty value
    then err (bad_request "name is required")
    else if ltb name_max (text_length value)
    then err (bad_request "name must be at most 64 characters")
    else if not (matches_name value)
    then err (
        bad_request
          "invalid name: must start with a letter or digit and contain only letters, digits, '.', '_', '@' or '-'")
    else ok value

-- The characters of a local part.
unfoldable pub is_atom_char : ℕ → Bool
unfolding is_alnum
is_atom_char c =
    is_alnum c
    || c == b'!'
    || (leb 0x23 c && leb c 0x27)
    || c == b'*'
    || c == b'+'
    || c == b'-'
    || c == b'/'
    || c == b'='
    || c == b'?'
    || (leb 0x5e c && leb c 0x60)
    || (leb 0x7b c && leb c 0x7e)

unfoldable pub is_label : String → Bool
unfolding is_alnum
is_label s =
    not (is_empty s)
    && leb (text_length s) 63
    && text_all (λ c. is_alnum c || c == b'-') s
    && text_all is_alnum (text_take 1 s)
    && text_all is_alnum (text_last s)

-- DNS labels before a last one of letters.
unfoldable pub is_domain : List String → Bool
unfolding is_letter is_label
is_domain [] = false
is_domain (tld ∷ []) = leb 2 (text_length tld) && leb (text_length tld) 63 && text_all is_letter tld
is_domain (l ∷ m ∷ ls) = is_label l && is_domain (m ∷ ls)

-- `EMAIL_RE`, which has one `@`: neither side of it allows another.
unfoldable pub matches_email : String → Bool
unfolding is_atom_char is_domain
matches_email value = is_address (split_on b'@' value)
  where
    is_address : List String → Bool
    is_address (l ∷ d ∷ []) =
        leb 1 (text_length l)
        && leb (text_length l) 64
        && all (λ s. not (is_empty s) && text_all is_atom_char s) (split_on b'.' l)
        && (str_eq d "localhost"
            || (leb 2 (length (split_on b'.' d)) && is_domain (split_on b'.' d)))
    is_address ls = false

unfoldable pub validate_email : String → Result ApiError String
unfolding matches_email has_control_chars
validate_email value =
    if is_empty value
    then err (bad_request "email is required")
    else if ltb email_max (text_length value)
        || has_control_chars value
        || not (matches_email value)
    then err (bad_request "invalid email")
    else ok value

-- Without the limit in the message.
unfoldable pub validate_text : Option String → String → ℕ → Result ApiError (Option String)
unfolding has_control_chars
validate_text none field max_len = ok none
validate_text (some value) field max_len =
    if has_control_chars value
    then err (bad_request (concat (field ∷ " must not contain control characters" ∷ [])))
    else if ltb max_len (text_length value)
    then err (bad_request (concat (field ∷ " is too long" ∷ [])))
    else ok (some value)

-- `[a-z0-9_.-]` where case is ignored, with the four other letters that then match `[a-z]`.
unfoldable pub is_segment_char : ℕ → Bool
unfolding is_alnum
is_segment_char c =
    is_alnum c
    || c == b'_'
    || c == b'.'
    || c == b'-'
    || c == 0x130
    || c == 0x131
    || c == 0x17f
    || c == 0x212a

unfoldable pub is_segment : String → Bool
unfolding is_segment_char
is_segment s = not (is_empty s) && text_all is_segment_char s

-- `PERMISSION_RE`
unfoldable pub matches_permission : String → Bool
unfolding is_segment
matches_permission value = is_permission (split_on b':' (chomp value))
  where
    is_permission : List String → Bool
    is_permission [] = false
    is_permission (s ∷ []) = str_eq s "*" || is_segment s
    is_permission (s ∷ t ∷ ss) = is_segment s && all (λ x. is_segment x || str_eq x "*") (t ∷ ss)

module _ (lower : String → String) where
  -- The loop of `validate_permissions`.
  unfoldable pub collect_permissions : List String → List String → Result ApiError (List String)
  unfolding matches_permission sanitize
  collect_permissions [] out = ok out
  collect_permissions (raw ∷ raws) out =
      let p = strip raw in
      let skipped = collect_permissions raws out in
      let added = collect_permissions raws (out ++ p ∷ []) in
      if is_empty p || ltb permission_max (text_length p) || not (matches_permission p)
      then err (bad_request (concat ("invalid permission: " ∷ sanitize raw permission_max ∷ [])))
      else if any (λ x. str_eq (lower p) (lower x)) out
      then skipped
      else added

  unfoldable pub validate_permissions :
      Option (List String) → Result ApiError (Option (List String))
  unfolding collect_permissions
  validate_permissions none = ok none
  validate_permissions (some permissions) =
      if ltb permissions_per_group_max (length permissions)
      then err (bad_request "at most 100 permissions per group")
      else elim (collect_permissions permissions []) [ err e ↦ err e | ok out ↦ ok (some out) ]
