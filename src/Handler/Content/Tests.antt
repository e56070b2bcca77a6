-- ===== src/Handler/Content/Tests.antt =====
-- pkg/handler/content.go: concrete inputs for the theorems about content.
use fasthttpd.Base.{ℕ, ◌+◌, ◌≡◌, refl, false, some, [], ◌∷◌, arith, Bytes, codes, pos}
use fasthttpd.Handler.Samples.{Context, plain_http, get_page}
use fasthttpd.Handler.Content.{
  ContentResponse, cond_path, cond_percentage, ContentCondition, write_to, handle,
}
use fasthttpd.Handler.Content.Laws.{AreMissed, handle_first_condition}

abbrev response_with : Bytes → ContentResponse
response_with b = record { headers = []; body = some b; status_code = pos 0; has_status = false }

abbrev half : ContentCondition
half = record { kind = cond_percentage (pos 50); response = response_with (codes "half") }

abbrev on_page : ContentCondition
on_page = record { kind = cond_path (codes "/p"); response = response_with (codes "page") }

-- The first draw is 80.
abbrev draws : ℕ → ℕ
draws i = 80 + i

abbrev no_arg : Context → Bytes → Bytes
no_arg ctx key = []

half-missed : AreMissed plain_http no_arg (half ∷ []) draws 0 get_page
half-missed = ((λ h. absurd (omega (arith, h))), tt)

handle_first_condition_example :
    (handle plain_http no_arg
        (record { default_response = response_with (codes "default"); conditions = half ∷ [] })
        draws
        get_page
      ≡ write_to plain_http no_arg (response_with (codes "default")) get_page)
    × (handle plain_http no_arg
          (record {
            default_response = response_with (codes "default");
            conditions = half ∷ on_page ∷ [];
          })
          draws
          get_page
        ≡ write_to plain_http no_arg on_page.response get_page)
handle_first_condition_example =
    handle_first_condition plain_http no_arg (half ∷ []) [] (response_with (codes "default"))
      on_page draws get_page half-missed refl
