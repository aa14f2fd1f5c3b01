-- ===== src/Llm/Thinking/Families.antt =====
-- What each family of models is sent, whatever the level.
use colony_agents.Prelude.{
  if◌then◌else◌, ◌≤◌, String, Text, codes, Bool, true, false, ◌&&◌, ◌||◌, none, some, ◌≡◌, refl,
  arith, str_eq, eq_iff, starts_with, lower, Bool-cases, inl, inr, ap, sym, ◌∙◌,
}
use colony_agents.Llm.Thinking.{
  is_compat, resolve_route, Level, off, low, medium, high, level_of, budget_of, proxied, fallback,
  kwargs_for, compute_thinking_model_kwargs, is_claude, is_gemini, is_gemini_pro, is_deepseek,
  is_doubao, is_qwen3, no_extra, in_extra, claude_kwargs, gemini_budget,
}

-- A compatible proxy of a model that is no Claude is routed to "openai/…".
proxy_route :
    (provider_type : String) (model_id : Text)
    → is_compat provider_type ≡ true
    → is_claude (lower model_id) ≡ false
    → starts_with (resolve_route provider_type model_id) (codes "openai/") ≡ true
unfolding resolve_route
proxy_route provider_type model_id c n = elim (Bool-cases (str_eq provider_type "custom")) [
  | inl e ↦ rw (e, n) refl
  | inr e ↦ rw (e, c) refl
]

or_right : (a b : Bool) → a || b ≡ false → b ≡ false
or_right a b h = ground (arith, h)

and_true : (a b : Bool) → a ≡ true → b ≡ true → a && b ≡ true
and_true a b h k = ground (arith, h, k)

kwargs_effort :
    (lvl : Level) (provider_type : String) (mid route : Text)
    → (is_claude mid ≡ false
        → (starts_with route (codes "openai/") && is_compat provider_type) ≡ true)
    → (kwargs_for lvl provider_type mid route).reasoning_effort ≡ none
unfolding kwargs_for claude_kwargs fallback
kwargs_effort lvl provider_type mid route h =
    elim (Bool-cases (str_eq provider_type "anthropic" || is_claude mid)) [
      | inl e ↦ rw e refl
      | inr e ↦ elim (Bool-cases (str_eq provider_type "gemini")) [
        | inl g ↦ rw (e, g) refl
        | inr g ↦ elim (Bool-cases (is_gemini mid)) [
          | inl m ↦ rw (e, g, m) refl
          | inr m ↦ elim (Bool-cases (is_deepseek mid)) [
            | inl d ↦ rw (e, g, m, d) refl
            | inr d ↦
                rw (e, g, m, d, h (or_right (str_eq provider_type "anthropic") (is_claude mid) e))
                  refl
          ]
        ]
      ]
    ]

-- Behind a compatible proxy, with the route that `resolve_route` gives, no model is ever sent
-- `reasoning_effort` as an argument of its own, which the proxy's client refuses.
pub proxy_no_effort :
    (level : Text) (provider_type : String) (model_id : Text)
    → is_compat provider_type ≡ true
    → (compute_thinking_model_kwargs level provider_type model_id
        (resolve_route provider_type model_id)).reasoning_effort
      ≡ none
unfolding compute_thinking_model_kwargs
proxy_no_effort level provider_type model_id c =
    kwargs_effort (level_of level) provider_type (lower model_id)
      (resolve_route provider_type model_id)
      (λ n. and_true _ _ (proxy_route provider_type model_id c n) c)

not_compat :
    (provider_type other : String)
    → is_compat provider_type ≡ true
    → is_compat other ≡ false
    → str_eq provider_type other ≡ false
not_compat provider_type other c n = elim (Bool-cases (str_eq provider_type other)) [
  | inl e ↦ absurd (ground (arith, sym (ap is_compat ((eq_iff provider_type other).0 e)) ∙ c, n))
  | inr e ↦ e
]

-- A Qwen3 model behind a compatible proxy, whose name is none of the families looked at before it,
-- is told not to think, whatever the level: the effort is low and thinking is off.
pub qwen3_never_thinks :
    (level : Text) (provider_type : String) (model_id : Text)
    → is_compat provider_type ≡ true
    → is_claude (lower model_id) ≡ false
    → is_gemini (lower model_id) ≡ false
    → is_deepseek (lower model_id) ≡ false
    → is_doubao (lower model_id) ≡ false
    → is_qwen3 (lower model_id) ≡ true
    → compute_thinking_model_kwargs level provider_type model_id
        (resolve_route provider_type model_id)
      ≡ in_extra (record no_extra { reasoning_effort = some "low"; enable_thinking = some false })
unfolding compute_thinking_model_kwargs kwargs_for fallback proxied
qwen3_never_thinks level provider_type model_id c no_claude no_gemini no_deepseek no_doubao qwen =
    rw
      (
        not_compat provider_type "anthropic" c refl,
        no_claude,
        not_compat provider_type "gemini" c refl,
        no_gemini,
        no_deepseek,
        proxy_route provider_type model_id c no_claude,
        c,
        no_doubao,
        qwen,
      )
      refl

gemini_budget-le : (lvl : Level) → gemini_budget lvl ≤ 8192
unfolding gemini_budget
gemini_budget-le off = omega arith
gemini_budget-le low = omega arith
gemini_budget-le medium = omega arith
gemini_budget-le high = omega arith

-- The thinking budget of a Gemini model is at most 8192, and a Pro's, whose service refuses zero, at
-- least 128.
pub gemini_budget_bounds :
    (lvl : Level) (mid : Text)
    → (budget_of lvl mid ≤ 8192) × ((if is_gemini_pro mid then 128 else 0) ≤ budget_of lvl mid)
unfolding budget_of
gemini_budget_bounds lvl mid = elim (Bool-cases (is_gemini_pro mid)) [
  | inl e ↦ rw e (omega (arith, gemini_budget-le lvl), omega arith)
  | inr e ↦ rw e (gemini_budget-le lvl, omega arith)
]
