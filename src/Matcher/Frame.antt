-- ===== src/Matcher/Frame.antt =====
-- What a matcher's `Claims` can change: the payload, and the state behind the contract lookup.
use consent_owner_resolver.Prelude.Exec.{Exec}
use consent_owner_resolver.Payload.{LazyPayload}

pub record Frame (S : Type 0) : Type 0 where
  pub payload : LazyPayload
  pub facade : S

module _ {S : Type 0} {A : Type 0} where
  abbrev pub on_payload : Exec LazyPayload A → Exec (Frame S) A
  on_payload m f = let (r, p) = m f.payload in (r, record f { payload = p })

  abbrev pub on_facade : Exec S A → Exec (Frame S) A
  on_facade m f = let (r, s) = m f.facade in (r, record f { facade = s })
