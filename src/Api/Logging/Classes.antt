-- ===== src/Api/Logging/Classes.antt =====
-- The classes of internal/api/logging.go, for the errors that jsonpointer.go makes of a body.
use consent_owner_resolver.Prelude
use consent_owner_resolver.Prelude.{
  ℕ, suc, Bool, true, false, Option, none, some, List, [], ◌∷◌, ◌++◌, ◌≡◌, ◌≢◌, ◌⊎◌, inl, inr, refl,
  sym, ap, ◌∙◌, arith, Bytes, str, ◌==◌, has_prefix, Any, get_elem?, Bool-cases, if◌then◌else◌,
  Error, error, Result, ok, err, panicked,
}
use consent_owner_resolver.Prelude.Exec.{Exec, ◌>>=◌}
use consent_owner_resolver.Json.{Json}
use consent_owner_resolver.Go.Library.{Library, Attempt, done, failed}
use consent_owner_resolver.Types.{Body}
use consent_owner_resolver.Payload.{
  decode_json_body, decoded_string, decoded_base64, or_bad_request, or_opaque,
}
use consent_owner_resolver.Api.Logging.{error_class}

abbrev pub classes : List Bytes
classes =
    str "path matcher"
    ∷ str "json matcher"
    ∷ str "contract matcher"
    ∷ str "decode json body"
    ∷ str "base64 body must be a JSON string"
    ∷ str "decode base64 body"
    ∷ str "decode body"
    ∷ []

-- The class of the error is on the list.
abbrev pub IsListed : Error → Type 0
IsListed e = Any (λ c. c ≡ error_class (some e)) classes

-- If the result is an error, then one with a listed class.
abbrev pub Listed : {A : Type 0} → Result A → Type 0
Listed (ok a) = Unit
Listed (err e) = IsListed e
Listed panicked = Unit

pub if-Listed :
    {A : Type 0} (b : Bool) (x y : Result A) → Listed x → Listed y → Listed (if b then x else y)
if-Listed true x y hx hy = hx
if-Listed false x y hx hy = hy

pub bind-Listed :
    {A B : Type 0} (m : Result A) (f : A → Result B)
    → Listed m
    → ((a : A) → Listed (f a))
    → Listed (Prelude.◌>>=◌ m f)
bind-Listed (ok a) f hm hf = hf a
bind-Listed (err e) f hm hf = hm
bind-Listed panicked f hm hf = tt

after-Listed :
    {S A B : Type 0} (m : Exec S A) (f : A → Exec S B) (r : Result A × S) (s : S)
    → m s ≡ r
    → Listed r.0
    → ((a : A) (t : S) → Listed (f a t).0)
    → Listed ((m >>= f) s).0
after-Listed m f (ok a, t) s e hm hf = rw e (hf a t)
after-Listed m f (err x, t) s e hm hf = rw e hm
after-Listed m f (panicked, t) s e hm hf = rw e tt

pub exec-Listed :
    {S A B : Type 0} (m : Exec S A) (f : A → Exec S B) (s : S)
    → Listed (m s).0
    → ((a : A) (t : S) → Listed (f a t).0)
    → Listed ((m >>= f) s).0
exec-Listed m f s hm hf = after-Listed m f (m s) s refl hm hf

module _ (lib : Library) where
  or_bad_request-Listed :
      (a : Attempt Json) → Listed (or_bad_request lib (str "decode json body") a)
  unfolding or_bad_request error_class str
  or_bad_request-Listed (done v) = tt
  or_bad_request-Listed (failed why) = inr (inr (inr (inl refl)))

  or_opaque-Listed : (a : Attempt Json) → Listed (or_opaque lib a)
  unfolding or_opaque
  or_opaque-Listed (done v) = tt
  or_opaque-Listed (failed why) = tt

  decoded_base64-Listed : (a : Attempt Bytes) → Listed (decoded_base64 lib a)
  unfolding decoded_base64 error_class str
  decoded_base64-Listed (done raw) = or_opaque-Listed (lib.unmarshal raw)
  decoded_base64-Listed (failed why) = inr (inr (inr (inr (inr (inl refl)))))

  decoded_string-Listed : (a : Attempt Bytes) → Listed (decoded_string lib a)
  unfolding decoded_string error_class str
  decoded_string-Listed (done s) = decoded_base64-Listed (lib.decode_string s)
  decoded_string-Listed (failed why) = inr (inr (inr (inr (inl refl))))

  pub decode_json_body-Listed : (b : Option Body) → Listed (decode_json_body lib b)
  unfolding decode_json_body error_class str
  decode_json_body-Listed none = tt
  decode_json_body-Listed (some b) = if-Listed (b.encoding == []) _ _ tt (
      if-Listed (b.encoding == str "none") _ _ tt (
        if-Listed (b.encoding == str "json") _ _
          (if-Listed (b.content == []) _ _ tt (or_bad_request-Listed (lib.unmarshal b.content)))
          (if-Listed (b.encoding == str "base64") _ _
            (decoded_string-Listed (lib.unmarshal_string b.content))
            (inr (inr (inr (inr (inr (inr (inl refl))))))))))
