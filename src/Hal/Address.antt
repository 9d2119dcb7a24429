-- ===== src/Hal/Address.antt =====
-- The addresses of kortos_hal/STM32F446xx/STM32F446xx.h: the peripherals' bases, and the offsets that
-- the members of a register structure have.
use ko_rtos.Base.{ℕ, ◌+◌}

abbrev pub ahb1_baseaddr : ℕ
ahb1_baseaddr = 0x4002_0000

abbrev pub apb1_baseaddr : ℕ
apb1_baseaddr = 0x4000_0000

abbrev pub apb2_baseaddr : ℕ
apb2_baseaddr = 0x4001_0000

-- GPIO ports
abbrev pub gpioa : ℕ
gpioa = ahb1_baseaddr + 0x0000

abbrev pub gpiob : ℕ
gpiob = ahb1_baseaddr + 0x0400

abbrev pub gpioc : ℕ
gpioc = ahb1_baseaddr + 0x0800

abbrev pub gpiod : ℕ
gpiod = ahb1_baseaddr + 0x0c00

abbrev pub gpioe : ℕ
gpioe = ahb1_baseaddr + 0x1000

abbrev pub gpiof : ℕ
gpiof = ahb1_baseaddr + 0x4000

abbrev pub gpiog : ℕ
gpiog = ahb1_baseaddr + 0x8000

abbrev pub gpioh : ℕ
gpioh = ahb1_baseaddr + 0xc000

-- GPIO_reg_t
abbrev pub moder : ℕ
moder = 0x00

abbrev pub otyper : ℕ
otyper = 0x04

abbrev pub ospeedr : ℕ
ospeedr = 0x08

abbrev pub pupdr : ℕ
pupdr = 0x0c

abbrev pub idr : ℕ
idr = 0x10

abbrev pub odr : ℕ
odr = 0x14

abbrev pub afr : ℕ
afr = 0x20

-- RCC_reg_t
abbrev pub rcc_baseaddr : ℕ
rcc_baseaddr = ahb1_baseaddr + 0x3800

abbrev pub rcc_cfgr : ℕ
rcc_cfgr = rcc_baseaddr + 0x08

abbrev pub ahb1rstr : ℕ
ahb1rstr = rcc_baseaddr + 0x10

abbrev pub apb1rstr : ℕ
apb1rstr = rcc_baseaddr + 0x20

abbrev pub apb2rstr : ℕ
apb2rstr = rcc_baseaddr + 0x24

abbrev pub ahb1enr : ℕ
ahb1enr = rcc_baseaddr + 0x30

abbrev pub apb1enr : ℕ
apb1enr = rcc_baseaddr + 0x40

abbrev pub apb2enr : ℕ
apb2enr = rcc_baseaddr + 0x44

-- EXTI_reg_t and SYSCFG_reg_t
abbrev pub exti : ℕ
exti = apb2_baseaddr + 0x3c00

abbrev pub exti_imr : ℕ
exti_imr = exti + 0x00

abbrev pub exti_rtsr : ℕ
exti_rtsr = exti + 0x08

abbrev pub exti_ftsr : ℕ
exti_ftsr = exti + 0x0c

abbrev pub exti_pr : ℕ
exti_pr = exti + 0x14

abbrev pub syscfg : ℕ
syscfg = apb2_baseaddr + 0x3800

abbrev pub syscfg_exticr : ℕ
syscfg_exticr = syscfg + 0x08

-- NVIC_reg_t
abbrev pub nvic : ℕ
nvic = 0xe000_e100

abbrev pub nvic_iser : ℕ
nvic_iser = nvic + 0x000

abbrev pub nvic_icer : ℕ
nvic_icer = nvic + 0x080

abbrev pub nvic_ipr : ℕ
nvic_ipr = nvic + 0x300

-- SPI, USART and CAN peripherals
abbrev pub spi1 : ℕ
spi1 = apb2_baseaddr + 0x3000

abbrev pub spi2 : ℕ
spi2 = apb1_baseaddr + 0x3800

abbrev pub spi3 : ℕ
spi3 = apb1_baseaddr + 0x3c00

abbrev pub spi4 : ℕ
spi4 = apb2_baseaddr + 0x3400

abbrev pub usart1 : ℕ
usart1 = apb2_baseaddr + 0x1000

abbrev pub usart2 : ℕ
usart2 = apb1_baseaddr + 0x4400

abbrev pub usart3 : ℕ
usart3 = apb1_baseaddr + 0x4800

abbrev pub uart4 : ℕ
uart4 = apb1_baseaddr + 0x4c00

abbrev pub uart5 : ℕ
uart5 = apb1_baseaddr + 0x5000

abbrev pub usart6 : ℕ
usart6 = apb2_baseaddr + 0x1400

abbrev pub can1 : ℕ
can1 = apb1_baseaddr + 0x6400

abbrev pub can2 : ℕ
can2 = apb1_baseaddr + 0x6800

-- SPI_reg_t
abbrev pub spi_cr1 : ℕ
spi_cr1 = 0x00

abbrev pub spi_cr2 : ℕ
spi_cr2 = 0x04

abbrev pub spi_sr : ℕ
spi_sr = 0x08

abbrev pub spi_dr : ℕ
spi_dr = 0x0c

-- USART_reg_t
abbrev pub usart_sr : ℕ
usart_sr = 0x00

abbrev pub usart_dr : ℕ
usart_dr = 0x04

abbrev pub usart_brr : ℕ
usart_brr = 0x08

abbrev pub usart_cr1 : ℕ
usart_cr1 = 0x0c

abbrev pub usart_cr2 : ℕ
usart_cr2 = 0x10

abbrev pub usart_cr3 : ℕ
usart_cr3 = 0x14

-- CAN_reg_t, CAN_mailbox_reg_t, CAN_fifo_reg_t and CAN_filter_bank_reg_t
abbrev pub can_mcr : ℕ
can_mcr = 0x00

abbrev pub can_msr : ℕ
can_msr = 0x04

abbrev pub can_tsr : ℕ
can_tsr = 0x08

abbrev pub can_rf0r : ℕ
can_rf0r = 0x0c

abbrev pub can_rf1r : ℕ
can_rf1r = 0x10

abbrev pub can_ier : ℕ
can_ier = 0x14

abbrev pub can_btr : ℕ
can_btr = 0x1c

abbrev pub can_tx_mailboxes : ℕ
can_tx_mailboxes = 0x180

abbrev pub can_rx_fifos : ℕ
can_rx_fifos = 0x1b0

abbrev pub can_fmr : ℕ
can_fmr = 0x200

abbrev pub can_fm1r : ℕ
can_fm1r = 0x204

abbrev pub can_fs1r : ℕ
can_fs1r = 0x20c

abbrev pub can_ffa1r : ℕ
can_ffa1r = 0x214

abbrev pub can_fa1r : ℕ
can_fa1r = 0x21c

abbrev pub can_filter_banks : ℕ
can_filter_banks = 0x240

-- I2C peripherals and I2C_reg_t
abbrev pub i2c1 : ℕ
i2c1 = apb1_baseaddr + 0x5400

abbrev pub i2c2 : ℕ
i2c2 = apb1_baseaddr + 0x5800

abbrev pub i2c3 : ℕ
i2c3 = apb1_baseaddr + 0x5c00

abbrev pub i2c_cr1 : ℕ
i2c_cr1 = 0x00

abbrev pub i2c_cr2 : ℕ
i2c_cr2 = 0x04

abbrev pub i2c_oar1 : ℕ
i2c_oar1 = 0x08

abbrev pub i2c_dr : ℕ
i2c_dr = 0x10

abbrev pub i2c_sr1 : ℕ
i2c_sr1 = 0x14

abbrev pub i2c_sr2 : ℕ
i2c_sr2 = 0x18

abbrev pub i2c_ccr : ℕ
i2c_ccr = 0x1c

abbrev pub i2c_trise : ℕ
i2c_trise = 0x20
