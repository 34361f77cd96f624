-- ===== src/Hello.antt =====
-- apps/hello/src/lib.rs: the greeting service.
use Prim.Native.String.{String}
use text.Mathlib.TextLemmas.{append_cancel_left, append_cancel_right}
use laqista.Base.{expect, to_option, ok_inj, ◌≡◌, ap, Outcome, ok, ◌>>=◌}
use laqista.Base.Text.{str_append}
use laqista.Types.{Status}

pub record HelloRequest : Type 0 where
  pub name : String

pub record HelloReply : Type 0 where
  pub message : String

unfoldable pub say_hello : HelloRequest → Outcome Status HelloReply
say_hello request = ok (record { message = str_append "Hello " (str_append request.name "!") })

-- `_app_main`, by the parser of addresses and the server of tonic. An address that cannot be parsed
-- is a panic.
module _ {A : Type 0} (parse : String → Outcome String A)
    (serve : A → Outcome String (Unit {0})) where
  unfoldable pub app_main : Outcome String (Unit {0})
  app_main = do addr ← expect (to_option (parse "[::1]:50051")); serve addr

-- Two requests are greeted alike only if they have the same name.
pub say_hello_inj : (r r' : HelloRequest) → say_hello r ≡ say_hello r' → r.name ≡ r'.name
unfolding say_hello
say_hello_inj r r' h = append_cancel_right r.name r'.name "!" (
    append_cancel_left "Hello " (str_append r.name "!") (str_append r'.name "!")
      (ap (λ (m : HelloReply). m.message) (ok_inj h)))
