-- ===== src/MessageQueue/Nodes.antt =====
-- The nodes of a queue and their order: NodeComparator.
use protocore.Base.{ℕ, Bool, true, false, none, ltb, if◌then◌else◌, arith}
use protocore.MemoryPool.{Memory, Cell, raw, link, object}
use protocore.Msg.{Msg, of_state, state_msg, less}
use protocore.Std.Heap.Order.{IsStrictWeak}

pub record Node : Type 0 where
  pub message : Msg
  pub sequence_number : ℕ

unfoldable pub node_less : Node → Node → Bool
unfolding less
node_less a b =
    if less a.message b.message
    then true
    else if less b.message a.message
    then false
    else ltb b.sequence_number a.sequence_number

abbrev pub blank : Node
blank = record {
  message = record {
    sending_task = none;
    msg_data = of_state (record { state = 0 });
    msg_priority = 0;
    msg_type = state_msg;
  };
  sequence_number = 0;
}

-- `*a`; the vector holds only pointers to nodes, so the last two cases are never read.
abbrev pub node_of : Cell Node → Node
node_of (object node) = node
node_of raw = blank
node_of (link _) = blank

abbrev pub node_at : Memory Node → ℕ → Node
node_at memory a = node_of (memory a)

abbrev pub ptr_less : Memory Node → ℕ → ℕ → Bool
ptr_less memory a b = node_less (node_at memory a) (node_at memory b)

pub node_less-IsStrictWeak : IsStrictWeak node_less
unfolding node_less
node_less-IsStrictWeak = record { asym = λ a b h. ground arith; chain = λ a b c h k. ground arith }

pub ptr_less-IsStrictWeak : (memory : Memory Node) → IsStrictWeak (ptr_less memory)
ptr_less-IsStrictWeak memory = record {
  asym = λ a b. node_less-IsStrictWeak.asym (node_at memory a) (node_at memory b);
  chain = λ a b c.
      node_less-IsStrictWeak.chain (node_at memory a) (node_at memory b) (node_at memory c);
}

pub Node-set : IsSet Node
Node-set = hlevel

pub Cell-set : IsSet (Cell Node)
Cell-set = hlevel
