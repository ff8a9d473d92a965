-- ===== src/Dns.antt =====
-- The attributes of dnspython's messages and answers that the program reads and assigns, and the
-- calls of dnspython that it makes, which are a parameter of every definition that uses them.
use python_smartdns.Prelude.{ℕ, String, Bool, Option, List}
use python_smartdns.Outcome.{Outcome}

pub record Question : Type 0 where
  pub name : String
  pub rdtype : ℕ
  pub rdclass : ℕ

-- A record, by the attribute `address` where it has one.
pub data Rdata : Type 0 where
  address : String → Rdata
  other : String → Rdata

pub record RRset : Type 0 where
  pub name : String
  pub rdtype : ℕ
  pub rdclass : ℕ
  pub ttl : ℕ
  pub records : List Rdata

-- `response` is the flag QR.
pub record Message : Type 0 where
  pub id : ℕ
  pub response : Bool
  pub opcode : ℕ
  pub rcode : ℕ
  pub question : List Question
  pub answer : List RRset
  pub authority : List RRset
  pub additional : List RRset

pub record Answer : Type 0 where
  pub qname : String
  pub rdtype : ℕ
  pub rdclass : ℕ
  pub response : Message
  pub rrset : Option RRset
  pub canonical_name : String
  pub expiration : ℕ

abbrev pub Wire : Type 0
Wire = List ℕ

-- dns.opcode.QUERY, dns.rdataclass.IN and the codes that the program names
abbrev pub opcode_query : ℕ
opcode_query = 0

abbrev pub class_in : ℕ
class_in = 1

abbrev pub noerror : ℕ
noerror = 0

abbrev pub formerr : ℕ
formerr = 1

abbrev pub servfail : ℕ
servfail = 2

abbrev pub nxdomain_code : ℕ
nxdomain_code = 3

abbrev pub type_a : ℕ
type_a = 1

abbrev pub type_aaaa : ℕ
type_aaaa = 28

-- `make_response`, `to_wire`, `from_wire` and the class `Answer` of dnspython; `type_text` is
-- `dns.rdatatype.to_text(...).upper()`, and `now` is `time.time()`.
pub record Dnspython : Type 0 where
  pub make_response : Message → Outcome Message
  pub to_wire : Message → Outcome Wire
  pub from_wire : Wire → Outcome Message
  pub make_answer : String → ℕ → ℕ → Message → Outcome Answer
  pub make_query : String → String → Outcome Message
  pub type_text : ℕ → String
  pub now : ℕ
