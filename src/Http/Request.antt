-- ===== src/Http/Request.antt =====
-- `Request` of smallserver/http.py. Python's checks of the arguments' types are the types here.
pub mod Replacing
mod Tests
use small_server.Prelude.{
  not, ◌&&◌, ◌||◌, Option, none, some, [], ◌∷◌, ◌++◌, if◌then◌else◌, is_nil, Result, ok, err, ◌>>=◌,
}
use small_server.Prelude.Dict.{Dict}
use small_server.Prelude.Text.{Text, codes, text_equal, has_char, starts_with, partition}
use small_server.Http.Headers.{Headers, is_token}

pub record Request : Type 0 where
  pub method : Text
  pub path : Text
  pub headers : Headers
  pub body : Text
  pub version : Text
  pub raw_target : Option Text
  pub query_string : Text
  pub path_params : Dict Text Text
  pub route_pattern : Option Text

-- The ValueErrors of `__post_init__`, in its order.
pub data RequestError : Type 0 where
  invalid_method target_slash inconsistent path_slash : RequestError

abbrev pub text_or : Option Text → Text
text_or none = []
text_or (some s) = s

-- The target before it is taken apart, by the given one.
abbrev pub target_of : Option Text → Request → Text
target_of (some raw) r = raw
target_of none r =
    if not (has_char b'?' r.path) && not (is_nil r.query_string)
    then r.path ++ (b'?' ∷ r.query_string)
    else r.path

unfoldable pub full_target : Request → Text
unfolding has_char
full_target r = target_of r.raw_target r

-- The fields set from the target, or checked against it.
abbrev pub settle_raw : Option Text → Request → Text → Text → Text → Result RequestError Request
settle_raw none r target target_path target_query =
    if not (is_nil r.query_string) && not (text_equal r.query_string target_query)
    then err inconsistent
    else ok (record r { path = target_path; query_string = target_query; raw_target = some target })
settle_raw (some raw) r target target_path target_query =
    if not (text_equal r.path target_path) || not (text_equal r.query_string target_query)
    then err inconsistent
    else ok r

unfoldable pub settle_target : Request → Text → Text → Result RequestError Request
unfolding full_target
settle_target r target_path target_query =
    settle_raw r.raw_target r (full_target r) target_path target_query

unfoldable pub check_path : Request → Result RequestError Request
unfolding starts_with
check_path r = if not (starts_with r.path (codes "/")) then err path_slash else ok r

-- `Request(...)`: the fields as given, through `__post_init__`.
unfoldable pub post_init : Request → Result RequestError Request
unfolding is_token full_target settle_target check_path partition text_equal
post_init r =
    let target = full_target r in
    let parts = partition b'?' target in
    if not (is_token r.method)
    then err invalid_method
    else if not (starts_with target (codes "/"))
    then err target_slash
    else settle_target r parts.0 (text_or parts.1) >>= check_path
