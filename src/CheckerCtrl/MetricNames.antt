-- ===== src/CheckerCtrl/MetricNames.antt =====
-- internal/checkerctrl/metrics.go: the names under which the metrics of a checker are registered. The
-- quoting of `%q` is a parameter.
use Prim.Native.String.{◌++◌ as string_append}
use text.Mathlib.TextLemmas.{append_cancel_left}
use govnilo.Prelude.{◌≡◌, ap, ◌∙◌, List, [], ◌∷◌, String}
use govnilo.CheckerCtrl.Helpers.{CheckerId}

module _ (quote : String → String) where
  -- `service=%q, checker=%q}`, with which every name ends.
  abbrev of_checker : CheckerId → String
  of_checker id = string_append "service=" (
      string_append (quote id.service)
        (string_append ", checker=" (string_append (quote id.name) "}")))

  pub gen_metric_name : String → String → String → CheckerId → String
  gen_metric_name name status method id = string_append name (
      string_append "{status=" (
        string_append (quote status) (
          string_append ", method="
            (string_append (quote method) (string_append ", " (of_checker id))))))

  pub gen_internal_err_metric_name : String → String → CheckerId → String
  gen_internal_err_metric_name name method id =
      string_append name (
        string_append "{method="
          (string_append (quote method) (string_append ", " (of_checker id))))

  -- `metricsFor`, in the order of its fields.
  pub metrics_for : CheckerId → List String
  metrics_for id =
      gen_metric_name "checker_runs_total" "success" "check" id
      ∷ gen_metric_name "checker_points" "success" "check" id
      ∷ gen_metric_name "checker_runs_total" "fail" "check" id
      ∷ gen_metric_name "checker_points" "fail" "check" id
      ∷ gen_internal_err_metric_name "checker_internal_errors_total" "check" id
      ∷ gen_internal_err_metric_name "checker_internal_errors_duration" "check" id
      ∷ gen_metric_name "checker_run_duration" "success" "check" id
      ∷ gen_metric_name "checker_run_duration" "fail" "check" id
      ∷ []

  module _
      (cut : (a b x y : String)
        → string_append (quote a) x ≡ string_append (quote b) y
        → (a ≡ b) × (x ≡ y)) where
    of_checker_apart : (a b : CheckerId) → of_checker a ≡ of_checker b → a ≡ b
    of_checker_apart a b e =
        let services = append_cancel_left "service=" _ _ e in
        let (service, rest) = cut a.service b.service _ _ services in
        let (name, _) = cut a.name b.name _ _ (append_cancel_left ", checker=" _ _ rest) in
        ap (λ s. record { service = s; name = a.name }) service
        ∙ ap (λ n. record { service = b.service; name = n }) name

    -- Where a quoted text can be cut off from what follows it, two checkers share no metric: a name
    -- that is one of the runs, the points or the durations of both makes them the same.
    gen_metric_name_apart :
        (name status method : String) (a b : CheckerId)
        → gen_metric_name name status method a ≡ gen_metric_name name status method b
        → a ≡ b
    unfolding gen_metric_name
    gen_metric_name_apart name status method a b e =
        let values = append_cancel_left name _ _ e in
        let (_, methods) = cut status status _ _ (append_cancel_left "{status=" _ _ values) in
        let (_, rest) = cut method method _ _ (append_cancel_left ", method=" _ _ methods) in
        of_checker_apart a b (append_cancel_left ", " _ _ rest)

    gen_internal_err_metric_name_apart :
        (name method : String) (a b : CheckerId)
        → gen_internal_err_metric_name name method a ≡ gen_internal_err_metric_name name method b
        → a ≡ b
    unfolding gen_internal_err_metric_name
    gen_internal_err_metric_name_apart name method a b e =
        let methods = append_cancel_left name _ _ e in
        let (_, rest) = cut method method _ _ (append_cancel_left "{method=" _ _ methods) in
        of_checker_apart a b (append_cancel_left ", " _ _ rest)
