-- ===== src/Trading/Worker.antt =====
-- workers/trading_pipeline.py: the life of `TradingPipelineWorker`.
--
-- The producer and the consumers run together, so that `running` stands for both; a stream of the
-- provider that ends by itself, and errors of the provider's calls, are not modelled. `initializations`
-- counts the calls of the orchestrator's `initialize`.
use algo_trading_system.Prelude.{
  ℕ, suc, Bool, true, false, ◌&&◌, ◌||◌, not, List, [], ◌∷◌, if◌then◌else◌, filterb,
}
use algo_trading_system.Prelude.Texts.{Text, text_eq}
use algo_trading_system.ControlPlane.{TextRules, clean_symbols}

pub record TradingPipelineWorker : Type 0 where
  pub symbols : List Text
  pub running : Bool
  pub subscribed : List Text
  pub provider_connected : Bool
  pub initializations : ℕ

abbrev pub is_empty {ℓ} : {A : Type ℓ} → List A → Bool
is_empty [] = true
is_empty (x ∷ xs) = false

-- `start`
unfoldable pub start_worker : TradingPipelineWorker → TradingPipelineWorker
start_worker w = if w.running || is_empty w.symbols then w else record w {
  running = true;
  subscribed = w.symbols;
  initializations = suc w.initializations;
}

-- `stop`
unfoldable pub stop_worker : TradingPipelineWorker → TradingPipelineWorker
stop_worker w = record w {
  running = false;
  subscribed = if not (is_empty w.symbols) && w.provider_connected then [] else w.subscribed;
}

-- `dict.fromkeys`: the first of equal symbols stays.
unfoldable pub unique : List Text → List Text
unique [] = []
unique (s ∷ ss) = s ∷ filterb (λ t. not (text_eq t s)) (unique ss)

unfoldable pub normalized : TextRules → List Text → List Text
unfolding unique
normalized rules symbols = unique (clean_symbols rules symbols)

abbrev pub same_symbols : List Text → List Text → Bool
same_symbols [] [] = true
same_symbols [] (t ∷ ts) = false
same_symbols (s ∷ ss) [] = false
same_symbols (s ∷ ss) (t ∷ ts) = text_eq s t && same_symbols ss ts

unfoldable pub replace_symbols : List Text → TradingPipelineWorker → TradingPipelineWorker
unfolding start_worker stop_worker
replace_symbols symbols w =
    if w.running
    then start_worker (record (stop_worker w) { symbols = symbols })
    else record w { symbols = symbols }

-- `reconfigure`
unfoldable pub reconfigure_worker :
    TextRules → List Text → TradingPipelineWorker → TradingPipelineWorker
unfolding normalized replace_symbols
reconfigure_worker rules symbols w =
    let next = normalized rules symbols in
    if same_symbols next w.symbols then w else replace_symbols next w
