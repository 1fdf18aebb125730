-- ===== src/Confimport/Roles.antt =====
-- When a configuration has no role: `Parse` (internal/confimport/parse.go) fails on exactly the files in
-- which no line gives one.
pub mod Pushed
pub mod Directives
use openvpnd.Base.{
  ℕ, ◌≡◌, ◌≢◌, ◌↔◌, refl, sym, ap, ◌∙◌, inl, inr, Bool, true, false, not, ◌&&◌, ◌||◌, Option, none,
  some, List, [], ◌∷◌, ◌++◌, ltb, length, if_lem, Bool-cases, if◌then◌else◌, arith, some-ne-none,
  ◌>>=◌,
}
use openvpnd.Base.Text.{Bytes, codes, bytes_eq, to_lower, trim_space}
use openvpnd.Base.Split.{split}
use openvpnd.Base.Strings.{equal_fold, starts_with, has_byte, to_upper}
use openvpnd.Base.Assoc.{Assoc}
use openvpnd.Confimport.{Result, Remote}
use openvpnd.Confimport.Fields.{split_fields}
use openvpnd.Confimport.Mask.{Fallible, network_mask_to_cidr}
use openvpnd.Confimport.Push.{
  extract_push_payload, parse_push, other_route, add_route, keep_push, push_fields, push_option,
  push_route,
}
use openvpnd.Confimport.Keyword.{Keyword, keyword, should_ignore}
use openvpnd.Confimport.Inline.{extract_inline_blocks}
use openvpnd.Confimport.Parse.{new_reader, parse, parse_body}
use openvpnd.Confimport.Parse.Line.{
  Reader, directive, push_line, remote_of, set_result, device, strip_line, read_fields, read_line,
  read_lines,
}
use openvpnd.Confimport.Parse.Finish.{infer_role, role_of, finished, finish}
use openvpnd.Confimport.Roles.Directives.{
  gives_role, undecided_result, undecided, directive-undecided,
}

abbrev fields_give_role : List Bytes → Bool
fields_give_role [] = false
fields_give_role (k ∷ args) = gives_role (keyword (to_lower k)) args

-- Whether a line that is read, neither blank nor a comment nor one of the daemon's own, gives a role.
abbrev pub line_gives_role : Bytes → Bool
line_gives_role raw =
    let line = strip_line raw in
    if bytes_eq line [] || should_ignore (to_lower line)
    then false
    else fields_give_role (split_fields line)

abbrev pub some_gives_role : List Bytes → Bool
some_gives_role [] = false
some_gives_role (l ∷ ls) = line_gives_role l || some_gives_role ls

read_fields-undecided :
    (fields : List Bytes) (line : Bytes) (r : Reader)
    → undecided (read_fields fields line r)
      ≡ (if fields_give_role fields then false else undecided r)
read_fields-undecided [] line r = refl
read_fields-undecided (k ∷ args) line r = directive-undecided (keyword (to_lower k)) args line r

-- A line that is skipped gives no role.
skip-undecided :
    (b g : Bool) (r s : Reader)
    → undecided s ≡ (if g then false else undecided r)
    → undecided (if b then r else s) ≡ (if (if b then false else g) then false else undecided r)
skip-undecided true g r s h = refl
skip-undecided false g r s h = h

read_line-undecided :
    (raw : Bytes) (r : Reader)
    → undecided (read_line raw r) ≡ (if line_gives_role raw then false else undecided r)
unfolding read_line
read_line-undecided raw r =
    let line = strip_line raw in
    skip-undecided (bytes_eq line [] || should_ignore (to_lower line))
      (fields_give_role (split_fields line)) r (read_fields (split_fields line) line r)
      (read_fields-undecided (split_fields line) line r)

or_else :
    (a b c : Bool) → (if b then false else if a then false else c) ≡ (if a || b then false else c)
or_else true true c = refl
or_else true false c = refl
or_else false true c = refl
or_else false false c = refl

read_lines-undecided :
    (ls : List Bytes) (r : Reader)
    → undecided (read_lines ls r) ≡ (if some_gives_role ls then false else undecided r)
unfolding read_lines
read_lines-undecided [] r = refl
read_lines-undecided (l ∷ ls) r =
    read_lines-undecided ls (read_line l r)
    ∙ ap (λ u. if some_gives_role ls then false else u) (read_line-undecided l r)
    ∙ or_else (line_gives_role l) (some_gives_role ls) (undecided r)

infer_role-none_iff :
    (role : Bytes) (c s remotes network : Bool)
    → (infer_role role c s remotes network ≡ none)
      ↔ ((not c && not s && (bytes_eq role [] && not remotes && not network)) ≡ true)
unfolding infer_role
infer_role-none_iff role c s remotes network = ground arith

bind-none_iff {ℓ κ} :
    {A : Type ℓ} {B : Type κ} (o : Option A) (f : A → B)
    → ((o >>= λ a. some (f a)) ≡ none) ↔ (o ≡ none)
bind-none_iff none f = (λ h. refl, λ h. refl)
bind-none_iff (some a) f = (λ h. cc, λ h. cc)

finish-none_iff : (r : Reader) → (finish r ≡ none) ↔ (undecided r ≡ true)
unfolding finish
finish-none_iff r =
    let roles =
      infer_role-none_iff r.result.role r.saw_client r.saw_server (ltb 0 (length r.result.remotes))
        (not (bytes_eq r.result.server_network [])) in
    let whole = bind-none_iff (role_of r) (finished r) in
    (λ h. roles.0 (whole.0 h), λ h. whole.1 (roles.1 h))

not_iff : (s u : Bool) → u ≡ (if s then false else true) → (u ≡ true) ↔ (s ≡ false)
not_iff true u h = ground arith
not_iff false u h = ground arith

parse_body-none_iff :
    (e : Assoc Bytes × Bytes)
    → (parse_body e ≡ none) ↔ (some_gives_role (split b'\n' (e.1)) ≡ false)
unfolding new_reader bytes_eq
parse_body-none_iff e =
    let r = read_lines (split b'\n' (e.1)) (new_reader (e.0)) in
    let end = finish-none_iff r in
    let rest =
      not_iff (some_gives_role (split b'\n' (e.1))) (undecided r)
        (read_lines-undecided (split b'\n' (e.1)) (new_reader (e.0))) in
    (λ h. rest.0 (end.0 h), λ h. end.1 (rest.1 h))

-- `Parse` fails exactly when none of the lines outside the inline blocks gives a role: `client`, `server`,
-- `tls-client`, `tls-server`, `mode server`, or a remote with a host, in a line that is neither a comment nor
-- one of those that the daemon owns.
pub parse-none_iff :
    (content : Bytes)
    → (parse content ≡ none)
      ↔ (some_gives_role (split b'\n' ((extract_inline_blocks content).1)) ≡ false)
unfolding parse
parse-none_iff content = parse_body-none_iff (extract_inline_blocks content)
