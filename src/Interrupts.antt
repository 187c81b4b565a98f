-- ===== src/Interrupts.antt =====
-- arch/x86/cpu/isr.c and drivers/pic.c: the dispatch of interrupts and their acknowledgement.
-- A handler acts on the system, whose devices are a parameter. A null pointer in the table is
-- `none`. No handler of the kernel changes the registers that the stub saved.
pub mod Dispatch
pub mod Effects
use little_os.Base.{
  ℕ, suc, ◌+◌, ◌/◌, ◌%◌, Option, none, some, List, [], ◌∷◌, ◌&&◌, ◌||◌, ltb, leb, ◌==◌,
  if◌then◌else◌, u8,
}
use little_os.Framebuffer.{Framebuffer, set_color, fb_write}
use little_os.Framebuffer.Palette
use little_os.Serial.{Ports}

abbrev pub pic1_port_a : ℕ
pic1_port_a = 0x20

abbrev pub pic1_port_b : ℕ
pic1_port_b = 0x21

abbrev pub pic2_port_a : ℕ
pic2_port_a = 0xA0

abbrev pub pic2_port_b : ℕ
pic2_port_b = 0xA1

abbrev pub pic1_start_interrupt : ℕ
pic1_start_interrupt = 0x20

abbrev pub pic2_start_interrupt : ℕ
pic2_start_interrupt = 0x28

abbrev pub pic2_end_interrupt : ℕ
pic2_end_interrupt = pic2_start_interrupt + 7

abbrev pub pic_eoi : ℕ
pic_eoi = 0x20

pub pic_ack : ℕ → Ports → Ports
pic_ack irq ports =
    if ltb irq pic1_start_interrupt || ltb pic2_end_interrupt irq
    then ports
    else (pic1_port_a, pic_eoi)
      ∷ (if leb pic2_start_interrupt irq then (pic2_port_a, pic_eoi) ∷ ports else ports)

pub pic_set_mask : (mask1 mask2 : ℕ) → Ports → Ports
pic_set_mask mask1 mask2 ports = (pic2_port_b, mask2) ∷ (pic1_port_b, mask1) ∷ ports

pub pic_remap : Ports → Ports
pic_remap ports = pic_set_mask 0xED 0xFF (
    (pic2_port_b, 0x01)
    ∷ (pic1_port_b, 0x01)
    ∷ (pic2_port_b, 0x02)
    ∷ (pic1_port_b, 0x04)
    ∷ (pic2_port_b, pic2_start_interrupt)
    ∷ (pic1_port_b, pic1_start_interrupt)
    ∷ (pic2_port_a, 0x11)
    ∷ (pic1_port_a, 0x11)
    ∷ ports)

-- The first 37 bytes of "\n[EXCEPTION] Unhandled CPU Exception: ".
abbrev pub exception_text : List ℕ
exception_text =
    10 ∷ 91 ∷ 69 ∷ 88 ∷ 67 ∷ 69 ∷ 80 ∷ 84 ∷ 73 ∷ 79 ∷ 78 ∷ 93 ∷ 32 ∷ 85 ∷ 110 ∷ 104 ∷ 97 ∷ 110 ∷ 100
    ∷ 108 ∷ 101 ∷ 100 ∷ 32 ∷ 67 ∷ 80 ∷ 85 ∷ 32 ∷ 69 ∷ 120 ∷ 99 ∷ 101 ∷ 112 ∷ 116 ∷ 105 ∷ 111 ∷ 110
    ∷ 58 ∷ []

-- The number of the vector and the end of the line, as they stand in `buf`.
pub vector_text : ℕ → List ℕ
vector_text interrupt =
    if leb 10 interrupt
    then u8 (b'0' + interrupt / 10) ∷ u8 (b'0' + interrupt % 10) ∷ 10 ∷ []
    else u8 (b'0' + interrupt) ∷ 10 ∷ []

pub report_exception : ℕ → Framebuffer → Framebuffer
report_exception interrupt f =
    fb_write (vector_text interrupt)
      (fb_write exception_text (set_color Palette.light_red Palette.black f))

-- The registers that the stub saves.
pub record Cpu : Type 0 where
  pub edi : ℕ
  pub esi : ℕ
  pub ebp : ℕ
  pub esp : ℕ
  pub ebx : ℕ
  pub edx : ℕ
  pub ecx : ℕ
  pub eax : ℕ

-- What the processor pushes, with the error code in front.
pub record StackState : Type 0 where
  pub error_code : ℕ
  pub eip : ℕ
  pub cs : ℕ
  pub eflags : ℕ

module _ (Devices : Type 0) where
  pub record System : Type 0 where
    pub screen : Framebuffer
    pub ports : Ports
    pub devices : Devices

  -- `isr_handler_t`
  abbrev pub Handler : Type 0
  Handler = Cpu → StackState → ℕ → System → System

  -- `interrupt_handlers`
  abbrev pub Handlers : Type 0
  Handlers = ℕ → Option Handler

  pub register_interrupt_handler : ℕ → Handler → Handlers → Handlers
  register_interrupt_handler n handler handlers k = if k == n then some handler else handlers k

  -- The branches of `interrupt_handler` on a vector whose entry in the table is given.
  pub dispatch : Option Handler → Cpu → StackState → ℕ → System → System
  dispatch (some handler) cpu stack interrupt s = handler cpu stack interrupt s
  dispatch none cpu stack interrupt s =
      if ltb interrupt 32 then record s { screen = report_exception interrupt s.screen } else s

  pub acknowledge : ℕ → System → System
  acknowledge interrupt s =
      if leb 32 interrupt && leb interrupt 47
      then record s { ports = pic_ack (u8 interrupt) s.ports }
      else s

  pub interrupt_handler : Handlers → Cpu → StackState → ℕ → System → System
  interrupt_handler handlers cpu stack interrupt s =
      acknowledge interrupt
        (dispatch (if ltb interrupt 256 then handlers interrupt else none) cpu stack interrupt s)
