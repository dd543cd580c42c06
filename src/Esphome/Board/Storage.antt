-- ===== src/Esphome/Board/Storage.antt =====
-- The address storage of hacan.cpp keeps its promise to the runtime.
use esphome_hacan.Base.{◌||◌, leb, ◌==◌, arith, inl, inr, List, Option-cases, Bool-cases}
use esphome_hacan.Runtime.Sound.Registering.{LoadsInRange}
use esphome_hacan.Esphome.Framework.{Framework}
use esphome_hacan.Esphome.Board.{Device, board_env, load}

pub board_env-LoadsInRange :
    {X : Type 0} (fw : Framework X) (devices : List Device) → LoadsInRange (board_env fw devices)
unfolding load
board_env-LoadsInRange fw devices w = elim (Option-cases (fw.load_preference w.rest)) [
  | inl empty ↦ simp (empty, load) tt
  | inr (value, stored) ↦ elim (Bool-cases (value == 0 || leb 0x1ff value)) [
    | inl invalid ↦ simp (stored, invalid, load) tt
    | inr valid ↦ simp (stored, valid, load) (ground (arith, valid))
  ]
]
