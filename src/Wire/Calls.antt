-- ===== src/Wire/Calls.antt =====
-- Calls of the client, each as the call of the service that it stands for: internal/client/client.go,
-- internal/api/handlers.go and internal/lock/service.go together.
use lockd.Prelude.{
  ℕ, ◌≡◌, refl, sym, ◌∙◌, true, false, ◌||◌, Option, none, List, Text, text, text_eq, text_beq_refl,
  ◌==◌,
}
use lockd.Lock.Types.{Time}
use lockd.Lock.Registry.{all_name_chars, valid_name}
use lockd.Lock.Service.{Service}
use lockd.Api.Types.{Codec, Request, Response}
use lockd.Api.Handlers.{answered, operate}
use lockd.Api.Router.{is_dotted}
use lockd.Api.Routes.{operation_path, requests_reach_locks}
use lockd.Client.Types.{Field, Net, Client}
use lockd.Client.Requests.{build_request}
use lockd.Wire.{Served}

module _ (net : Net) (codec : Codec) (rand : ℕ → Option (List ℕ)) (started now : Time)
    (files : Option (Request → Response)) where
  -- An exchange on an operation of a lock is a run of its handler.
  pub served_operation :
      (s s' : Service) (c : Client) (ns name op : Text) (body : List (Text × Field))
      → valid_name ns ≡ true
      → valid_name name ≡ true
      → (is_dotted ns || is_dotted name) ≡ false
      → all_name_chars op ≡ true
      → is_dotted op ≡ false
      → (served : Served net codec rand started now files s s' c (operation_path ns name op) body)
      → operate rand codec s none served.request ns name op now ≡ (s', answered served.answer)
  unfolding build_request
  served_operation s s' c ns name op body hn hm plain ho dots served =
      let post : (served.request.method == text "POST") ≡ true =
        rw served.arrives.same_method (text_beq_refl (text "POST")) in
      let d =
        requests_reach_locks rand codec started files s none served.request ns name op now hn hm ho
          dots post served.arrives.located in
      sym (d ∙ rw plain refl) ∙ served.answers
