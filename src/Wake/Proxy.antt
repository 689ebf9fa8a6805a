-- ===== src/Wake/Proxy.antt =====
-- The wake proxy, svc_wake_proxy.go of cmd/morsel-ctrl-plane, before the wake endpoint of the control plane.
use Prim.Native.Char.{code}
use morsel.Prelude.{
  ℕ, ◌≡◌, refl, sym, ap, ◌∙◌, Bool, Option, none, some, String, str_eq, str_append, if◌then◌else◌,
  ◌==◌, arith, Result, ok, err,
}
use morsel.Apps.Models.{App, BudgetFlags, Faults}
use morsel.Apps.Hibernation.{namespace_or_empty}
use morsel.Wake.Handler.{
  Server, Outside, WakeRequest, WakeReply, error_reply, retry_after, wake_ack,
  internal_wake_handler,
}
use morsel.Wake.Outcome.{Asks}
use morsel.Wake.Single.{OneWake, running_wakes, acknowledged_runs}

-- The page that waits for an app, a refusal with its status, and one that names the time to come back.
pub data ProxyReply : Type 0 where
  wait_page : String → ProxyReply
  http_error : ℕ → ProxyReply
  come_back : ℕ → ProxyReply

-- What may go wrong between the proxy and the control plane: the request is not sent, its answer does
-- not come, or the text of the answer is not read.
pub record Link : Type 0 where
  pub unsent : Bool
  pub unanswered : Bool
  pub unread : Bool

-- What stands before the first dot.
unfoldable pub first_label : String → String
first_label String.[] = ""
first_label (String.◌∷◌ c s) =
    let rest = first_label s in if code c == b'.' then "" else String.◌∷◌ c rest

-- The name that the control plane sends, or the end of the billing period if it sends one.
unfoldable pub read_answer : Link → WakeReply → Result (Option ℕ) String
read_answer l (wake_ack name) = if l.unread then err none else ok name
read_answer l (retry_after t) = err (some t)
read_answer l (error_reply status text) = err none

unfoldable pub show_answer : String → Result (Option ℕ) String → ProxyReply
unfolding first_label
show_answer host (err (some t)) = come_back t
show_answer host (err none) = http_error 503
show_answer host (ok name) = wait_page (if str_eq name "" then first_label host else name)

abbrev pub wake_request_for : String → String → WakeRequest
wake_request_for host token = record {
  method = "POST";
  authorization = str_append "Bearer " token;
  host = host;
}

module _ (f : Faults) (now period_end : ℕ) (cfg : BudgetFlags) (o : Outside) (l : Link) where
  unfoldable pub wake_proxy_wake_app : String → String → Server → Server × Result (Option ℕ) String
  unfolding internal_wake_handler read_answer
  wake_proxy_wake_app host token s =
      let (v, reply) =
        internal_wake_handler f now period_end cfg o (wake_request_for host token) s in
      if l.unsent
      then (s, err none)
      else if l.unanswered
      then (v, err none)
      else (v, read_answer l reply)

  -- The token is the one in the file, if that can be read.
  unfoldable pub proxy_handler : Option String → String → Server → Server × ProxyReply
  unfolding wake_proxy_wake_app show_answer
  proxy_handler token host s = if str_eq host "" then (s, http_error 400) else elim token [
    | none ↦ (s, http_error 500)
    | some t ↦ let (v, answer) = wake_proxy_wake_app host t s in (v, show_answer host answer)
  ]

  -- If the map of the control plane matches the wakes that run and the wake proxy answers a request
  -- with the waiting page, the proxy has read a token that the control plane accepts, the host is
  -- that of an app, and then exactly one wake of that app's namespace runs; the page bears the
  -- app's name, or the first label of the host if that is empty.
  pub page_runs :
      (token : Option String) (host label : String) (s v : Server)
      → OneWake s
      → proxy_handler token host s ≡ (v, wait_page label)
      → (t : String) × (a : App) × (token ≡ some t)
        × Asks o (wake_request_for host t) s a
        × (running_wakes (namespace_or_empty a.namespace) v ≡ 1)
        × (label ≡ (if str_eq a.name "" then first_label host else a.name))
  unfolding proxy_handler wake_proxy_wake_app show_answer read_answer
  page_runs none host label s v h e = ground (arith, e)
  page_runs (some t) host label s v h e =
      go (internal_wake_handler f now period_end cfg o (wake_request_for host t) s).1 refl
    where
      go :
          (reply : WakeReply)
          → (internal_wake_handler f now period_end cfg o (wake_request_for host t) s).1 ≡ reply
          → (t' : String) × (a : App) × (some t ≡ some t')
            × Asks o (wake_request_for host t') s a
            × (running_wakes (namespace_or_empty a.namespace) v ≡ 1)
            × (label ≡ (if str_eq a.name "" then first_label host else a.name))
      go (error_reply status text) r = ground (arith, e, r)
      go (retry_after p) r = ground (arith, e, r)
      go (wake_ack name) r =
          let (a, asked, same, one) =
            acknowledged_runs f now period_end cfg o (wake_request_for host t) s name h r in
          let ends : (internal_wake_handler f now period_end cfg o (wake_request_for host t) s).0
              ≡ v =
            ground (arith, e, r) in
          let shown : label ≡ (if str_eq name "" then first_label host else name) =
            ground (arith, e, r) in
          (
            t,
            a,
            refl,
            asked,
            ap (running_wakes (namespace_or_empty a.namespace)) (sym ends) ∙ one,
            shown ∙ ap (λ n. if str_eq n "" then first_label host else n) (sym same),
          )
