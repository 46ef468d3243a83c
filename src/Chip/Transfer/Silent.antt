-- ===== src/Chip/Transfer/Silent.antt =====
-- The functions that write nothing to the FIFO: all but the output transfers.
use jornada_gpib.Prelude.{◌≡◌, refl, ◌∙◌, arith}
use jornada_gpib.Chip.Io.{World, Run, done, spin, M}
use jornada_gpib.Chip.Protocol.Steps.{
  still, Step, look, poke, feed, rest, tick, pass, note, order, reset, instruct, put_auxra,
  put_auxrb, put_auxri, put_auxrg, execute, Steps, here, next,
}
use jornada_gpib.Chip.Protocol.Rules.{Traced, Holds}
use jornada_gpib.Chip.Transfer.Output.{fifo_out}

Step-fifo_out : {u v : World} → Step still u v → fifo_out v.log ≡ fifo_out u.log
Step-fifo_out (look off v w) = refl
Step-fifo_out (poke off v w p q r) = ground arith
Step-fifo_out (feed v w p) = cc
Step-fifo_out (rest us w) = refl
Step-fifo_out (tick t w) = refl
Step-fifo_out (pass w) = refl
Step-fifo_out (note c w same) = refl
Step-fifo_out (order v w p) = refl
Step-fifo_out (reset v w p) = refl
Step-fifo_out (instruct v w) = refl
Step-fifo_out (put_auxra f w k) = refl
Step-fifo_out (put_auxrb f w k) = refl
Step-fifo_out (put_auxri f w k) = refl
Step-fifo_out (put_auxrg f w k) = refl
Step-fifo_out (execute v w) = refl

Steps-fifo_out : {u v : World} → Steps still u v → fifo_out v.log ≡ fifo_out u.log
Steps-fifo_out here = refl
Steps-fifo_out (next s x) = Step-fifo_out x ∙ Steps-fifo_out s

Holds-fifo_out :
    {A : Type 0} (r : Run A) (w : World)
    → Holds (λ _. Steps still w) r
    → Holds (λ _ w'. fifo_out w'.log ≡ fifo_out w.log) r
Holds-fifo_out (done a w') w h = Steps-fifo_out h
Holds-fifo_out spin w h = tt

pub Traced-fifo_out :
    {A : Type 0} (m : M A) (w : World)
    → Traced still m
    → Holds (λ _ w'. fifo_out w'.log ≡ fifo_out w.log) (m w)
Traced-fifo_out m w t = Holds-fifo_out (m w) w (t.at w)
