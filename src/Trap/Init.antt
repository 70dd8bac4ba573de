-- ===== src/Trap/Init.antt =====
-- kernel/trap: what `trap_init` writes, and the end of the interrupt controllers' set-up.
use echo_os.Base.{ℕ, ◌+◌, ◌-◌, ◌^◌, List, [], ◌∷◌, ◌++◌, bit_or}
use echo_os.Arch.Csr.{
  Csrs, hwi_vec, ti_vec, csr_tcfg_en, csr_tcfg_per, w_csr_ecfg, w_csr_tcfg, w_csr_eentry,
}
use echo_os.Trap.{Write, mmio_q, mmio_b, iocsr_q}

abbrev pub uart0_irq : ℕ
uart0_irq = 2

abbrev pub keyboard_irq : ℕ
keyboard_irq = 3

abbrev pub mouse_irq : ℕ
mouse_irq = 4

abbrev pub disk_irq : ℕ
disk_irq = 5

abbrev pub enabled_irqs : ℕ
enabled_irqs =
    bit_or (bit_or (bit_or (2 ^ uart0_irq) (2 ^ keyboard_irq)) (2 ^ mouse_irq)) (2 ^ disk_irq)

unfoldable pub extioi_init : List Write
extioi_init =
    iocsr_q 0x1600 enabled_irqs ∷ (iocsr_q 0x14c0 1 ∷ (iocsr_q 0x1c00 0 ∷ (iocsr_q 0x14a0 1 ∷ [])))

abbrev pub ls7a_pch_reg_base : ℕ
ls7a_pch_reg_base = 0x10000000

abbrev pub ls7a_int_htmsi_vec_reg : ℕ
ls7a_int_htmsi_vec_reg = ls7a_pch_reg_base + 0x200

-- The edge register gets one bit, whose number is the union of the four numbers.
unfoldable pub ls7a_intc_init : List Write
ls7a_intc_init =
    mmio_q (ls7a_pch_reg_base + 0x20) (2 ^ 64 - 1 - enabled_irqs)
    ∷ (mmio_q (ls7a_pch_reg_base + 0x60)
          (2 ^ bit_or (bit_or (bit_or uart0_irq keyboard_irq) mouse_irq) disk_irq)
        ∷ (mmio_b (ls7a_int_htmsi_vec_reg + uart0_irq) uart0_irq
            ∷ (mmio_b (ls7a_int_htmsi_vec_reg + keyboard_irq) keyboard_irq
                ∷ (mmio_b (ls7a_int_htmsi_vec_reg + mouse_irq) mouse_irq
                    ∷ (mmio_b (ls7a_int_htmsi_vec_reg + disk_irq) mouse_irq
                        ∷ (mmio_q (ls7a_pch_reg_base + 0x3e0) 0 ∷ []))))))

abbrev command : ℕ → Write
command v = mmio_b 0x1fe00064 v

abbrev to_device : ℕ → Write
to_device v = mmio_b 0x1fe00060 v

-- The reads, whose results are dropped, are left out.
unfoldable pub i8042_init : List Write
i8042_init =
    command 0xAD
    ∷ (command 0xA7
        ∷ (command 0xAA
            ∷ (command 0x20
                ∷ (command 0x60
                    ∷ (to_device 0x07 ∷ (command 0xAB ∷ (command 0xAE ∷ (to_device 0xFF ∷ []))))))))

-- `entry` is the address of `trap_entry`.
unfoldable pub trap_init : ℕ → Csrs → Csrs × List Write
trap_init entry c = (
  w_csr_eentry
      (w_csr_tcfg (w_csr_ecfg c (bit_or hwi_vec ti_vec))
        (bit_or (bit_or 0x0a000000 csr_tcfg_en) csr_tcfg_per))
      entry,
  extioi_init ++ (ls7a_intc_init ++ i8042_init),
)
