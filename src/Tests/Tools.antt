-- ===== src/Tests/Tools.antt =====
-- The simulated network, the key files and the genesis snippet.
use mathlib.Core.List.{append_cancel_left, append_cancel_right}
use d_hotsuff.Prelude.{
  ℕ, ◌≤◌, ◌<◌, ◌≡◌, ◌↔◌, inl, refl, Bytes, bytes_instance, true, Option, some, none, List, [], ◌∷◌,
  ◌++◌, ok, arith,
}
use d_hotsuff.Prelude.Outcome.{done}
use d_hotsuff.Prelude.Text.{ascii}
use d_hotsuff.Prelude.Table.{lookup}
use d_hotsuff.External.{PrivateKey}
use d_hotsuff.Crypto.Keys.{Codecs, Pkcs8Key, ecdsa_private, load_private_key}
use d_hotsuff.Keygen.{Tools, keygen, address_of, id_of, path_of}
use d_hotsuff.Keygen.Ports.{port_of, port_valid_iff}
use d_hotsuff.Keygen.Files.{AllSucceed, keygen-load_private_key}
use d_hotsuff.Simulation.{NetSim, new_noop_adversary, send, tick}
use d_hotsuff.Simulation.Delivery.{sending, ticking, run, Occurs, delivered_in_time}

-- Keys that differ in one coordinate.
abbrev key_at : ℕ → PrivateKey
key_at i = record { public_key = record { x = i; y = 0 }; ecdsa_sign = λ digest. some (1, 2) }

abbrev parsed : Bytes → Option Pkcs8Key
parsed [] = none
parsed (i ∷ rest) = some (ecdsa_private (key_at i))

abbrev codecs : Codecs
codecs = record {
  pem_decode = λ content. some content;
  pem_encode = λ der. der;
  parse_pkcs8 = parsed;
  marshal_pkcs8 = λ key. some (key.public_key.x ∷ []);
  marshal_pkix = λ key. some (key.x ∷ []);
}

abbrev tools : Tools
tools = record {
  codecs = codecs;
  generate = λ i. some (key_at i);
  can_make = λ out. true;
  can_write = λ path. true;
  join = λ out name. (out ++ b'/' ∷ []) ++ name;
  base64 = λ der. der;
  quote = λ text. text;
}

tools-AllSucceed : AllSucceed tools (b'k' ∷ []) (b'P' ∷ [])
tools-AllSucceed = record {
  generated = λ i. (key_at i, i ∷ [], i ∷ [], refl, refl, refl, refl);
  armoured = λ der. refl;
  made = refl;
  written = λ i. refl;
  apart = λ a b _ _ e.
      append_cancel_right a b (ascii ".key")
        (append_cancel_left (b'k' ∷ b'/' ∷ []) (a ++ ascii ".key") (b ++ ascii ".key") e);
}

keygen-load_private_key_example :
    (final : List (Bytes × Bytes)) × (printed : Bytes) × (keygen tools 4 (b'k' ∷ []) (b'P' ∷ []) []
      ≡ (final, done printed))
    × (key : PrivateKey) × (tools.generate 3 ≡ some key)
    × (load_private_key codecs
          (λ p. lookup p final)
          (path_of tools (b'k' ∷ []) (id_of (b'P' ∷ []) 3))
        ≡ ok key)
keygen-load_private_key_example =
    keygen-load_private_key tools 4 3 (b'k' ∷ []) (b'P' ∷ []) [] tools-AllSucceed (refl, tt)
      (omega arith) (omega arith)

port_valid_iff_example : (port_of (address_of 12) ≤ 65535) ↔ (12 < 10)
port_valid_iff_example = port_valid_iff 12

-- A network that is synchronous from the start, with delays of at most 50.
abbrev network : NetSim
network = record {
  replicas = [];
  gst = 100;
  max_delay = 50;
  adversary = new_noop_adversary;
  clock = record { now = 200 };
  rng = λ i bound. 0;
  draws = 0;
  msg_q = [];
}

delivered_in_time_example :
    (n' : NetSim) × (send network (1 ∷ []) (2 ∷ []) (7 ∷ []) ≡ some n')
    × Occurs
        (record { from = 1 ∷ []; to = 2 ∷ []; msg = 7 ∷ [] })
        ((run n' (sending (3 ∷ []) (1 ∷ []) [] ∷ ticking 210 ∷ [])).1
          ++ (tick (run n' (sending (3 ∷ []) (1 ∷ []) [] ∷ ticking 210 ∷ [])).0 250).1)
delivered_in_time_example =
    delivered_in_time network (1 ∷ []) (2 ∷ []) (7 ∷ [])
      (sending (3 ∷ []) (1 ∷ []) [] ∷ ticking 210 ∷ []) 250 (λ i bound pos. pos) (omega arith)
      (inl (omega arith)) (omega arith)
