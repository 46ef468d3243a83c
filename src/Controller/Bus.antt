-- ===== src/Controller/Bus.antt =====
-- What the multiline command bytes mean to the devices on the bus (IEEE 488.1, with secondary
-- addresses): who listens, who talks. A specification, independent of the driver.
use jornada_gpib.Prelude.{ℕ, ◌-◌, ◌==◌, ltb, if◌then◌else◌, Option, none, some, List, [], ◌∷◌}

abbrev pub Address : Type 0
Address = ℕ × Option ℕ

-- Which of the two addressed devices a secondary address would go to.
pub data Pending : Type 0 where
  nobody to_listener to_talker : Pending

pub record Bus : Type 0 where
  pub listeners : List Address
  pub talker : Option Address
  pub pending : Pending

pub data Meaning : Type 0 where
  unlisten untalk other : Meaning
  listen : ℕ → Meaning
  talk : ℕ → Meaning
  second : ℕ → Meaning

abbrev pub meaning : ℕ → Meaning
meaning b =
    if ltb b 0x20
    then other
    else if ltb b 0x3f
    then listen (b - 0x20)
    else if b == 0x3f
    then unlisten
    else if ltb b 0x5f
    then talk (b - 0x40)
    else if b == 0x5f
    then untalk
    else if ltb b 0x7f
    then second (b - 0x60)
    else other

abbrev pub add_second_listener : ℕ → List Address → List Address
add_second_listener s [] = []
add_second_listener s ((p, t) ∷ ls) = (p, some s) ∷ ls

abbrev pub add_second_talker : ℕ → Option Address → Option Address
add_second_talker s none = none
add_second_talker s (some (p, t)) = some (p, some s)

abbrev pub give_second : ℕ → Pending → Bus → Bus
give_second s nobody b = b
give_second s to_listener b = record b {
  listeners = add_second_listener s b.listeners;
  pending = nobody;
}
give_second s to_talker b = record b { talker = add_second_talker s b.talker; pending = nobody }

abbrev pub obey : Meaning → Bus → Bus
obey unlisten b = record b { listeners = []; pending = nobody }
obey untalk b = record b { talker = none; pending = nobody }
obey other b = record b { pending = nobody }
obey (listen p) b = record b { listeners = (p, none) ∷ b.listeners; pending = to_listener }
obey (talk p) b = record b { talker = some (p, none); pending = to_talker }
obey (second s) b = give_second s b.pending b

abbrev pub obey_all : List ℕ → Bus → Bus
obey_all [] b = b
obey_all (x ∷ xs) b = obey_all xs (obey (meaning x) b)
