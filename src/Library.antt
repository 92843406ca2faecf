-- ===== src/Library.antt =====
-- Functions of Python's standard library that the model does not define: they are parameters. A
-- Unicode table, a hash, the JSON text format and the rendering of floats stand behind them.
use sovereign_flow.Prelude.{ℕ, String, List, Option}
use sovereign_flow.Result.{Result}
use sovereign_flow.Value.{Value, Float}

pub record Library : Type 0 where
  -- `text.lower()`
  pub lower : String → String
  -- `sha256(text.encode("utf-8")).hexdigest()`
  pub sha256 : String → String
  -- `json.loads(text)`; `none` is a `JSONDecodeError`.
  pub json_loads : String → Option Value
  -- `json.dumps(value, sort_keys=True, separators=(",", ":"))`
  pub json_dumps : Value → String
  -- `json.dumps(value, ensure_ascii=False, allow_nan=False, sort_keys=True,
  -- separators=(",", ":"))`; `none` is a `TypeError` or a `ValueError`.
  pub json_canonical : Value → Option String
  -- `f"{x:.6f}"`
  pub format_score : Float → String
  -- `str(n)` of a natural number.
  pub format_number : ℕ → String
  -- `template.format(value)`, which raises on a template that asks for more than `value`.
  pub format_template : String → String → Result String
  -- `x / n`, rounded.
  pub divide : Float → ℕ → Float
  -- `int(value)` and `tuple(value)`, which may raise.
  pub to_int : Value → Result Value
  pub to_tuple : Value → Result (List Value)
