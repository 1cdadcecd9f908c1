-- ===== src/Tests/Layers.antt =====
-- Scalability modes.
use libmediasouphandler.Base.{some, ◌≡◌, refl, inl, arith}
use libmediasouphandler.ScalabilityMode.{match_layers}
use libmediasouphandler.ScalabilityMode.Parsed.{
  printed, Layers, match_layers-printed, match_layers-Layers,
}

match_layers-printed_example : match_layers (printed "L" 12 3 "_KEY") ≡ some (12, 3)
match_layers-printed_example =
    match_layers-printed "L" 12 3 "_KEY" (inl refl) (omega arith) (omega arith) (omega arith)
      (omega arith) refl refl

match_layers-Layers_example : Layers 12 × Layers 3
unfolding match_layers
match_layers-Layers_example = match_layers-Layers "S12T3" 12 3 refl
